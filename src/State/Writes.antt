-- ===== src/State/Writes.antt =====
-- Which tasks the operations of state.rs write.
use meesign_server.Base.{
  ℕ, refl, inl, inr, Bool, true, some, List, [], Bytes, nat_eq, nat_beq, Bool-cases, bytes_eq,
}
use meesign_server.Base.Exec.{Exec, ◌>>=◌, ◌>>◌, lift}
use meesign_server.Base.Map.{Map, insert, get-insert}
use meesign_server.Communicator.Messages.{Crypto, ClientMessage}
use meesign_server.Persistence.Models.{Verdict}
use meesign_server.Shares.{share_devices, count_shares}
use meesign_server.State.{Services, database, set_task_last_update, send_updates}
use meesign_server.State.Candidates.{connected_lem}
use meesign_server.State.Choose.{accepting, candidates, choose_active_shares}
use meesign_server.State.Decide.{
  enter, vote, initialized, start, accept_task, apply_decision, decide_entry,
}
use meesign_server.State.Phases.{
  votes, runs_on, fails, finishes, stays_finished, continue-Written, Follows, Written, cache,
  Writes, Writes-bind, Writes-none,
}
use meesign_server.State.Update.{
  run, add_result_group, apply_update, acknowledge_entry, update_entry,
}
use meesign_server.TaskStore.{put_task}
use meesign_server.Tasks.Info.{
  RoundUpdate, listen, group_certificates_sent, next_round, DecisionUpdate, undecided, accepted,
  TaskResult, as_bytes,
}
use meesign_server.Tasks.Info
use meesign_server.Tasks.Running.{Running, RunningTask, task_info, update, create_running_task}
use meesign_server.Tasks.Task.{Task, voting, running, declined, finished, failed, acknowledge}
use meesign_server.Tasks.Voting.{VotingTask, decide}

module _ {R Tx : Type 0} (v : Services R Tx) (id : ℕ) (t : Task) where
  put_task-Written : (t' : Task) (c : Map ℕ Task) → Follows t t' → Written id t c (insert id t' c)
  put_task-Written t' c f = inr (t', f, λ k. get-insert id k t' c)

  enter-Writes : (t' : Task) → Follows t t' → Writes id t (enter v id t')
  unfolding enter put_task send_updates
  enter-Writes t' f s = put_task-Written t' (cache s) f

  send_updates-Writes : (t' : Task) → Writes id t (send_updates v t')
  unfolding send_updates
  send_updates-Writes t' = Writes-none id t (send_updates v t') (λ s. refl)

  database-Writes : {A : Type 0} (m : Exec R A) → Writes id t (database v m)
  database-Writes m = Writes-none id t (database v m) (λ s. refl)

  then_enter :
      {A : Type 0} (m : Exec R A) (t' : Task)
      → Follows t t'
      → Writes id t (database v m >> enter v id t')
  then_enter m t' f =
      Writes-bind id t (database v m) (λ a. enter v id t') (database-Writes m)
        (λ a. enter-Writes t' f)

  then_send :
      {A : Type 0} (m : Exec R A) (t' : Task) → Writes id t (database v m >> send_updates v t')
  then_send m t' =
      Writes-bind id t (database v m) (λ a. send_updates v t') (database-Writes m)
        (λ a. send_updates-Writes t')

  choose_active_shares-Writes :
      (now : ℕ) (w : VotingTask) → Writes id t (choose_active_shares v now w)
  unfolding choose_active_shares
  choose_active_shares-Writes now w s =
      let (ps, acts, e, fewer) = connected_lem now (accepting w) s in
      let chosen = v.choose_multiple (share_devices (candidates w ps)) w.accept_threshold in
      rw e (
        continue-Written id t (cache s) _ (λ a s. inl (λ k. refl))
          (v.db.set_task_active_shares w.task_info.id (count_shares [] chosen) s.task_store.repo).0
          _ (inl (λ k. refl)))

  module _ ⦃x : Crypto⦄ where
    initialized-Writes : (new_task : RunningTask) → Writes id t (initialized v new_task)
    unfolding initialized
    initialized-Writes new_task s = inl (λ k. refl)

  -- A voting task may go to every phase.
  module _ (may : (t' : Task) → Follows t t') ⦃x : Crypto⦄ where
    start-Writes : (u : RoundUpdate) (new_task : RunningTask) → Writes id t (start v id u new_task)
    unfolding start
    start-Writes listen new_task s = inl (λ k. refl)
    start-Writes (Info.RoundUpdate.finished r done) new_task s = inl (λ k. refl)
    start-Writes group_certificates_sent new_task s =
        then_enter (v.db.set_task_group_certificates_sent id (some true)) (running new_task) (may _)
          s
    start-Writes (next_round r) new_task s =
        then_enter (v.db.set_task_round id r) (running new_task) (may _) s
    start-Writes (Info.RoundUpdate.failed f) new_task s =
        then_enter (v.db.set_task_result id (Verdict.failed f.reason)) (failed f) (may _) s

    accept_task-Writes : (now : ℕ) (w : VotingTask) → Writes id t (accept_task v now id w)
    unfolding accept_task
    accept_task-Writes now w =
        Writes-bind id t (choose_active_shares v now w)
          (λ active_shares.
            lift (create_running_task w.running_task_context w active_shares) >>= λ new_task.
            initialized v new_task >>= λ p. start v id p.0 p.1)
          (choose_active_shares-Writes now w)
          (λ active_shares.
            Writes-bind id t (lift (create_running_task w.running_task_context w active_shares))
              (λ new_task. initialized v new_task >>= λ p. start v id p.0 p.1)
              (λ s. inl (λ k. refl))
              (λ new_task.
                Writes-bind id t (initialized v new_task) (λ p. start v id p.0 p.1)
                  (initialized-Writes new_task) (λ p. start-Writes p.0 p.1)))

    apply_decision-Writes :
        (now : ℕ) (u : DecisionUpdate) (w : VotingTask) → Writes id t (apply_decision v now id u w)
    unfolding apply_decision
    apply_decision-Writes now undecided w s = send_updates-Writes (voting w) s
    apply_decision-Writes now accepted w s = accept_task-Writes now w s
    apply_decision-Writes now (Info.DecisionUpdate.declined d) w s =
        then_enter (v.db.set_task_result id (Verdict.failed "Task declined")) (declined d) (may _) s

-- A vote writes the task that is voted on.
pub decide_entry-Writes :
    {R Tx : Type 0} (v : Services R Tx) ⦃x : Crypto⦄ (now id : ℕ) (device_id : Bytes)
    (accept : Bool) (t : Task)
    → Writes id t (decide_entry v now id device_id accept t)
unfolding decide_entry set_task_last_update
decide_entry-Writes v now id device_id accept (voting w) s =
    let s' = record s { task_last_updates = insert id now s.task_last_updates } in
    continue-Written id (voting w) (cache s) _
      (λ p.
        Writes-bind id (voting w) (database v (v.db.set_task_decision id device_id accept))
          (λ a. apply_decision v now id p.0 p.1)
          (database-Writes v id (voting w) (v.db.set_task_decision id device_id accept))
          (λ a. apply_decision-Writes v id (voting w) (λ t'. votes) now p.0 p.1))
      (vote v id device_id accept w s').0 (vote v id device_id accept w s').1
      (unfold vote put_task in
        put_task-Written v id (voting w) (voting (decide device_id accept w).1) (cache s) votes)
decide_entry-Writes v now id device_id accept (running w) s = inl (λ k. refl)
decide_entry-Writes v now id device_id accept (declined w) s = inl (λ k. refl)
decide_entry-Writes v now id device_id accept (finished w) s = inl (λ k. refl)
decide_entry-Writes v now id device_id accept (failed w) s = inl (λ k. refl)

module _ {R Tx : Type 0} (v : Services R Tx) (id : ℕ) where
  pub acknowledge_entry-Writes :
      (device_id : Bytes) (t : Task) → Writes id t (acknowledge_entry v id device_id t)
  unfolding acknowledge_entry put_task
  acknowledge_entry-Writes device_id (finished w) s =
      put_task-Written v id (finished w) (finished (acknowledge device_id w)) (cache s)
        stays_finished
  acknowledge_entry-Writes device_id (voting w) s = inl (λ k. refl)
  acknowledge_entry-Writes device_id (running w) s = inl (λ k. refl)
  acknowledge_entry-Writes device_id (declined w) s = inl (λ k. refl)
  acknowledge_entry-Writes device_id (failed w) s = inl (λ k. refl)

  run-Writes :
      (t : RunningTask) (m : Exec Running RoundUpdate) → Writes id (running t) (run v id m t)
  unfolding run put_task
  run-Writes t m s =
      put_task-Written v id (running t) (running (m (s.helpers, t)).1.1) (cache s) runs_on

  add_result_group-Writes :
      (t : Task) (result : TaskResult) → Writes id t (add_result_group v id result)
  unfolding add_result_group
  add_result_group-Writes t (TaskResult.group_established g) s =
      continue-Written id t (cache s) _ (λ a s. inl (λ k. refl))
        (v.db.add_group g.id id g.name g.threshold g.protocol g.key_type g.certificate g.note
          s.task_store.repo).0
        _ (inl (λ k. refl))
  add_result_group-Writes t (TaskResult.signed d) s = inl (λ k. refl)
  add_result_group-Writes t (TaskResult.signed_pdf d) s = inl (λ k. refl)
  add_result_group-Writes t (TaskResult.decrypted d) s = inl (λ k. refl)

  apply_update-Writes :
      (t : RunningTask) (u : RoundUpdate) (t' : RunningTask)
      → Writes id (running t) (apply_update v id u t')
  unfolding apply_update
  apply_update-Writes t listen t' s = inl (λ k. refl)
  apply_update-Writes t group_certificates_sent t' s = inl (λ k. refl)
  apply_update-Writes t (next_round r) t' s =
      then_send v id (running t) (v.db.set_task_round id r) (running t') s
  apply_update-Writes t (Info.RoundUpdate.failed f) t' s =
      then_enter v id (running t) (v.db.set_task_result id (Verdict.failed f.reason)) (failed f)
        fails s
  apply_update-Writes t (Info.RoundUpdate.finished r done) t' s =
      let publish =
        database v (v.db.set_task_result id (Verdict.succeeded (as_bytes done.result)))
        >> enter v id (finished done) in
      Writes-bind id (running t) (database v (v.db.set_task_round id r))
        (λ a. add_result_group v id done.result >> publish)
        (database-Writes v id (running t) (v.db.set_task_round id r))
        (λ a.
          Writes-bind id (running t) (add_result_group v id done.result) (λ a. publish)
            (add_result_group-Writes (running t) done.result)
            (λ a.
              then_enter v id (running t)
                (v.db.set_task_result id (Verdict.succeeded (as_bytes done.result))) (finished done)
                finishes))
        s

  pub update_entry-Writes :
      ⦃x : Crypto⦄ (now : ℕ) (device : Bytes) (messages : List ClientMessage) (attempt : ℕ)
      (t : Task)
      → Writes id t (update_entry v now id device messages attempt t)
  unfolding update_entry set_task_last_update
  update_entry-Writes now device messages attempt (running w) s =
      elim (Bool-cases (nat_beq attempt (task_info w).attempts)) [
        | inr differ ↦ rw differ (inl (λ k. refl))
        | inl same ↦ rw same (
            Writes-bind id (running w) (run v id (update v.helper device messages) w)
              (λ p. apply_update v id p.0 p.1) (run-Writes w (update v.helper device messages))
              (λ p. apply_update-Writes w p.0 p.1)
              (record s { task_last_updates = insert id now s.task_last_updates }))
      ]
  update_entry-Writes now device messages attempt (voting w) s = inl (λ k. refl)
  update_entry-Writes now device messages attempt (declined w) s = inl (λ k. refl)
  update_entry-Writes now device messages attempt (finished w) s = inl (λ k. refl)
  update_entry-Writes now device messages attempt (failed w) s = inl (λ k. refl)
