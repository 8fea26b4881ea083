-- ===== src/State/Restarts.antt =====
-- Which task a restart of state.rs writes.

use meesign_server.Base.{ℕ, ◌≡◌, refl, inl, inr, true, some, nat_eq}
use meesign_server.Base.Exec.{Outcome, ok, err, panic, and_then, continue}
use meesign_server.Base.Map.{Map, get-insert}
use meesign_server.Communicator.Messages.{Crypto}
use meesign_server.Persistence.Models.{Verdict}
use meesign_server.State.{State, Services, send_updates, set_task_last_update}
use meesign_server.State.Decide.{enter}
use meesign_server.State.Phases.{
  Follows, runs_on, fails, WrittenBy, WrittenBy-trans, WritesBy, continue-WrittenBy, cache,
}
use meesign_server.State.Update.{run, apply_restart, restart_entry}
use meesign_server.TaskStore.{put_task}
use meesign_server.Tasks.Info.{RoundUpdate, listen, group_certificates_sent, next_round}
use meesign_server.Tasks.Info
use meesign_server.Tasks.Restarted.{Names, restart-Names}
use meesign_server.Tasks.Running.{RunningTask}
use meesign_server.Tasks.Running
use meesign_server.Tasks.Task.{Task, task_info, running, failed}

abbrev pub own_id : RunningTask → ℕ
own_id w = (Running.task_info w).id

-- What a restart may write for a running task.
abbrev pub Restarted : RunningTask → Task → Type 0
Restarted w t' = Follows (running w) t' × ((task_info t').id ≡ (Running.task_info w).id)

module _ {R Tx : Type 0} (v : Services R Tx) (w : RunningTask) where
  apply_restart-WritesBy :
      (u : RoundUpdate) (w' : RunningTask)
      → Names (own_id w) (ok u)
      → WritesBy (Restarted w) (own_id w) (apply_restart v (own_id w) u w')
  unfolding apply_restart send_updates
  apply_restart-WritesBy listen w' n s = inl (λ k. refl)
  apply_restart-WritesBy (Info.RoundUpdate.finished r done) w' n s = inl (λ k. refl)
  apply_restart-WritesBy group_certificates_sent w' n s =
      continue-WrittenBy (Restarted w) (own_id w) (cache s) _ (λ a s. inl (λ k. refl))
        (v.db.set_task_group_certificates_sent (own_id w) (some true) s.task_store.repo).0 _
        (inl (λ k. refl))
  apply_restart-WritesBy (next_round r) w' n s =
      continue-WrittenBy (Restarted w) (own_id w) (cache s) _ (λ a s. inl (λ k. refl))
        (v.db.set_task_round (own_id w) r s.task_store.repo).0 _ (inl (λ k. refl))
  apply_restart-WritesBy (Info.RoundUpdate.failed f) w' n s =
      continue-WrittenBy (Restarted w) (own_id w) (cache s) _
        (λ a s. inr (
          failed f,
          (fails, unfold task_info in n),
          λ k. unfold enter put_task in get-insert (own_id w) k (failed f) (cache s),
        ))
        (v.db.set_task_result (own_id w) (Verdict.failed f.reason) s.task_store.repo).0 _
        (inl (λ k. refl))

  applied :
      (r : Outcome RoundUpdate) (w' : RunningTask) (c : Map ℕ Task) (s : State R Tx)
      → Names (own_id w) r
      → WrittenBy (Restarted w) (own_id w) c (cache s)
      → WrittenBy (Restarted w) (own_id w) c (
          cache
            (continue {A = RoundUpdate × RunningTask}
              (and_then r (λ u. ok (u, w')))
              (λ p. apply_restart v (own_id w) p.0 p.1)
              s).1)
  applied (ok u) w' c s n b =
      WrittenBy-trans (Restarted w) (own_id w) _ _ _ b (apply_restart-WritesBy u w' n s)
  applied (err e) w' c s n b = b
  applied panic w' c s n b = b

  module _ ⦃x : Crypto⦄ where
    pub restart_entry-WritesBy :
        (now : ℕ) → WritesBy (Restarted w) (own_id w) (restart_entry v now (running w))
    unfolding restart_entry set_task_last_update run put_task
    restart_entry-WritesBy now s =
        continue-WrittenBy (Restarted w) (own_id w) (cache s) _
          (λ a s'.
            let (names, same) = restart-Names v.helper (s'.helpers, w) in
            let after = Running.restart v.helper (s'.helpers, w) in
            applied after.0 after.1.1 (cache s') _ names (
              inr (
                running after.1.1,
                (runs_on, unfold task_info in same),
                λ k. get-insert (own_id w) k (running after.1.1) (cache s'),
              )))
          (v.db.increment_task_attempt_count (own_id w) s.task_store.repo).0 _ (inl (λ k. refl))
