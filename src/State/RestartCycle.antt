-- ===== src/State/RestartCycle.antt =====
-- `restart_stale_tasks` of state.rs follows the phases of tasks.
use meesign_server.Base.{
  ◌-◌, ltb, ℕ, ◌≡◌, refl, sym, subst, some, List, [], ◌∷◌, nat_eq, if◌then◌else◌,
}
use meesign_server.Base.Exec.{Exec, Outcome, ok, err, panic, continue}
use meesign_server.Base.Map.{Map, get, insert}
use meesign_server.Communicator.Messages.{Crypto}
use meesign_server.State.{get_task_last_update, or_now, State, Services}
use meesign_server.State.Keyed.{
  IsKeyed, Leads, Leads-trans, Leads-refl, Restarted-Leads, get_task-Leads,
}
use meesign_server.State.Lifecycle.{LeadsOn}
use meesign_server.State.Phases.{get_task_found, cache}
use meesign_server.State.Restarts.{restart_entry-WritesBy}
use meesign_server.State.Update.{restart_all, restart_stale_tasks, stale, restart_entry}
use meesign_server.TaskStore.{get_task}
use meesign_server.Tasks.Task.{declined, finished, voting, Task, task_info, running, failed}

module _ {R Tx : Type 0} (v : Services R Tx) ⦃x : Crypto⦄ (now : ℕ) where
  restart_entry-Leads :
      (s : State R Tx) (id : ℕ) (t : Task)
      → IsKeyed (cache s)
      → get id (cache s) ≡ some t
      → Leads (cache s) (cache (restart_entry v now t s).1)
  unfolding restart_entry
  restart_entry-Leads s id (running w) keyed found =
      Restarted-Leads w (cache s) (cache (restart_entry v now (running w) s).1) keyed
        (subst (λ k. get k (cache s) ≡ some (running w))
          (sym (unfold task_info in keyed id (running w) found)) found)
        (restart_entry-WritesBy v w now s)
  restart_entry-Leads s id (voting t) keyed found = Leads-refl (cache s) keyed
  restart_entry-Leads s id (declined t) keyed found = Leads-refl (cache s) keyed
  restart_entry-Leads s id (finished t) keyed found = Leads-refl (cache s) keyed
  restart_entry-Leads s id (failed t) keyed found = Leads-refl (cache s) keyed

  continue-Leads :
      {A : Type 0} (c : Map ℕ Task) (f : A → Exec (State R Tx) (Unit {0})) (r : Outcome A)
      (s : State R Tx)
      → Leads c (cache s)
      → ((a : A) → r ≡ ok a → Leads c (cache (f a s).1))
      → Leads c (cache (continue r f s).1)
  continue-Leads c f (ok a) s h hf = hf a refl
  continue-Leads c f (err e) s h hf = h
  continue-Leads c f panic s h hf = h

  restart_all-Leads :
      (ids : List ℕ) (s : State R Tx)
      → IsKeyed (cache s)
      → Leads (cache s) (cache (restart_all v now ids s).1)
  unfolding restart_all
  restart_all-Leads [] s keyed = Leads-refl (cache s) keyed
  restart_all-Leads (id ∷ ids) s keyed =
      let fetched = get_task v.db id s.task_store in
      let s1 : State R Tx = record s { task_store = fetched.1 } in
      let lead1 = get_task-Leads v.db id s.task_store keyed in
      continue-Leads (cache s) _ fetched.0 s1 lead1 λ e found.
        let entry = restart_entry v now e s1 in
        let lead2 =
          Leads-trans (cache s) (cache s1) (cache entry.1) lead1
            (restart_entry-Leads s1 id e lead1.0 (get_task_found v.db id s.task_store e found)) in
        continue-Leads (cache s) _ entry.0 entry.1 lead2 λ a done.
          Leads-trans (cache s) (cache entry.1) _ lead2 (restart_all-Leads ids entry.1 lead2.0)

  stale_lem :
      (ids : List ℕ) (s : State R Tx)
      → (old : List ℕ) × (times : Map ℕ ℕ) × (stale v now ids s
          ≡ (ok old, record s { task_last_updates = times }))
  unfolding stale get_task_last_update
  stale_lem [] s = ([], s.task_last_updates, refl)
  stale_lem (id ∷ ids) s =
      let last = or_now now (get id s.task_last_updates) in
      let (old, times, e) =
        stale_lem ids (record s { task_last_updates = insert id last s.task_last_updates }) in
      (if ltb 30 (now - last) then id ∷ old else old, times, rw e refl)

  -- Restarts of stale tasks lead every cached task through its phases: where each cached task is
  -- kept under its own identifier, this stays so, hydrated tasks included, and whatever the
  -- database and the other crates answer, and whether the call succeeds, fails or panics, each
  -- cached task stays in the cache, a running one runs on, finishes or fails, and a declined,
  -- finished or failed one stays so.
  pub restarts_lifecycle :
      (s : State R Tx) (k : ℕ) (t : Task)
      → IsKeyed (cache s)
      → get k (cache s) ≡ some t
      → IsKeyed (cache (restart_stale_tasks v now s).1) × LeadsOn s k t (restart_stale_tasks v now)
  unfolding restart_stale_tasks
  restarts_lifecycle s k t keyed found =
      let lead : Leads (cache s) (cache (restart_stale_tasks v now s).1) =
        continue-Leads (cache s) _ (v.db.get_restart_candidates s.task_store.repo).0 _
          (Leads-refl (cache s) keyed)
          (λ ids e.
            let listed : State R Tx = record s {
              task_store = record s.task_store {
                repo = (v.db.get_restart_candidates s.task_store.repo).1;
              };
            } in
            let (old, times, same) = stale_lem ids listed in
            rw same (restart_all-Leads old (record listed { task_last_updates = times }) keyed)) in
      (lead.0, lead.1 k t found)
