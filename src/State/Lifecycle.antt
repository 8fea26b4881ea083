-- ===== src/State/Lifecycle.antt =====
-- The operations of state.rs follow the phases of tasks, whatever the database answers.
use mathlib.Core.Option.{some_inj}
use meesign_server.Base.{
  ℕ, ◌≡◌, refl, inl, inr, Bool, some, List, Bytes, arith, nat_eq, nat_beq, nat_beq_iff, Bool-cases,
  bytes_eq, sym, ap, subst, ◌∙◌,
}
use meesign_server.Base.Exec.{Exec, Outcome, ok, err, panic, ◌>>=◌, continue}
use meesign_server.Base.Map.{Map, get}
use meesign_server.Communicator.Messages.{Crypto, ClientMessage}
use meesign_server.State.{State, Services, in_store}
use meesign_server.State.Decide.{decide_entry, decide_task}
use meesign_server.State.Phases.{
  get_task_found, Follows, Follows-refl, Written, cache, Writes, get_task-Stays,
}
use meesign_server.State.Update.{acknowledge_entry, acknowledge_task, update_entry, update_task}
use meesign_server.State.Writes.{decide_entry-Writes, update_entry-Writes, acknowledge_entry-Writes}
use meesign_server.TaskStore.{get_task, CachedTaskStore}
use meesign_server.Tasks.Task.{Task}

-- The entry that a call writes, among all entries.
Written-Advances :
    (id : ℕ) (e : Task) (c c' : Map ℕ Task)
    → get id c ≡ some e
    → Written id e c c'
    → (k : ℕ) (t : Task) → get k c ≡ some t
    → (t' : Task) × (get k c' ≡ some t') × Follows t t'
Written-Advances id e c c' found (inl w) k t h = (t, w k ∙ h, Follows-refl t)
Written-Advances id e c c' found (inr (e', f, w)) k t h = elim (Bool-cases (nat_beq id k)) [
  | inr other ↦ (t, ground (arith, w k), Follows-refl t)
  | inl same ↦
      let k_id = (nat_beq_iff id k).0 same in
      let e_t : e ≡ t = some_inj.0 (sym found ∙ ap (λ j. get j c) k_id ∙ h) in
      (e', ground (arith, w k), subst (λ u. Follows u e') e_t f)
]

module _ {R Tx : Type 0} where
  -- Every cached task stays in the cache, in its phase or in one that may follow it.
  abbrev pub Advances : Exec (State R Tx) (Unit {0}) → Type 0
  Advances m =
      (s : State R Tx) (k : ℕ) (t : Task)
      → get k (cache s) ≡ some t
      → (t' : Task) × (get k (cache (m s).1) ≡ some t') × Follows t t'

  entered :
      (f : Task → Exec (State R Tx) (Unit {0})) (r : Outcome Task) (c : CachedTaskStore R)
      (s : State R Tx) (k id : ℕ) (t : Task)
      → ((e : Task) → Writes id e (f e))
      → get k c.task_cache ≡ some t
      → ((e : Task) → r ≡ ok e → get id c.task_cache ≡ some e)
      → (t' : Task) × (get k (cache (continue r f (record s { task_store = c })).1) ≡ some t')
        × Follows t t'
  entered f (ok e) c s k id t hf stays found =
      Written-Advances id e c.task_cache _ (found e refl) (hf e (record s { task_store = c })) k t
        stays
  entered f (err e) c s k id t hf stays found = (t, stays, Follows-refl t)
  entered f panic c s k id t hf stays found = (t, stays, Follows-refl t)

  -- A call on the entry that `get_task` finds.
  pub on_entry-Advances :
      (v : Services R Tx) (id : ℕ) (f : Task → Exec (State R Tx) (Unit {0}))
      → ((e : Task) → Writes id e (f e))
      → Advances (in_store (get_task v.db id) >>= f)
  on_entry-Advances v id f hf s k t h =
      entered f (get_task v.db id s.task_store).0 (get_task v.db id s.task_store).1 s k id t hf
        (get_task-Stays v.db k t id s.task_store h) (get_task_found v.db id s.task_store)

-- The task is still cached once the call has ended, in its phase or in one that may follow it.
abbrev pub LeadsOn : {R Tx : Type 0} → State R Tx → ℕ → Task → Exec (State R Tx) (Unit {0}) → Type 0
LeadsOn s k t m = (t' : Task) × (get k (cache (m s).1) ≡ some t') × Follows t t'

module _ {R Tx : Type 0} (v : Services R Tx) ⦃x : Crypto⦄ where
  pub decide_task-Advances :
      (now id : ℕ) (device : Bytes) (accept : Bool) → Advances (decide_task v now id device accept)
  unfolding decide_task
  decide_task-Advances now id device accept =
      on_entry-Advances v id (decide_entry v now id device accept)
        (decide_entry-Writes v now id device accept)

  pub update_task-Advances :
      (now id : ℕ) (device : Bytes) (messages : List ClientMessage) (attempt : ℕ)
      → Advances (update_task v now id device messages attempt)
  unfolding update_task
  update_task-Advances now id device messages attempt =
      on_entry-Advances v id (update_entry v now id device messages attempt)
        (update_entry-Writes v id now device messages attempt)

  pub acknowledge_task-Advances :
      (id : ℕ) (device : Bytes) → Advances (acknowledge_task v id device)
  unfolding acknowledge_task
  acknowledge_task-Advances id device =
      on_entry-Advances v id (acknowledge_entry v id device) (acknowledge_entry-Writes v id device)

  -- Votes, messages and acknowledgements lead every cached task through its phases: whatever the
  -- database, the channels and the other crates answer, and whether the call succeeds, fails or
  -- panics, each cached task stays in the cache; a voting task may go to any phase, a running one
  -- only runs on, finishes or fails, and a declined, finished or failed one stays so.
  pub lifecycle :
      (s : State R Tx) (k : ℕ) (t : Task) (now id : ℕ) (device : Bytes) (accept : Bool)
      (messages : List ClientMessage) (attempt : ℕ)
      → get k (cache s) ≡ some t
      → LeadsOn s k t (decide_task v now id device accept)
        × LeadsOn s k t (update_task v now id device messages attempt)
        × LeadsOn s k t (acknowledge_task v id device)
  lifecycle s k t now id device accept messages attempt cached = (
    decide_task-Advances now id device accept s k t cached,
    update_task-Advances now id device messages attempt s k t cached,
    acknowledge_task-Advances id device s k t cached,
  )
