-- ===== src/State/Update.antt =====
-- `update_task`, `acknowledge_task` and `restart_stale_tasks` of state.rs.
use meesign_server.Base.{ℕ, ◌-◌, true, not, some, List, [], ◌∷◌, Bytes, nat_beq, ltb, if◌then◌else◌}
use meesign_server.Base.Exec.{
  Exec, ok, and_then, ◌>>=◌, ◌>>◌, pure, raise, abort, general_protocol_error, persistence_error,
  data_inconsistency_error,
}
use meesign_server.Communicator.Messages.{Crypto, ClientMessage}
use meesign_server.Persistence.Models.{Verdict}
use meesign_server.State.{
  State, Services, in_store, database, set_task_last_update, get_task_last_update, send_updates,
}
use meesign_server.State.Decide.{enter}
use meesign_server.TaskStore.{get_task, put_task}
use meesign_server.Tasks.Info.{
  RoundUpdate, listen, group_certificates_sent, next_round, TaskResult, group_established, as_bytes,
}
use meesign_server.Tasks.Info
use meesign_server.Tasks.Running.{Running, RunningTask, task_info, update, restart}
use meesign_server.Tasks.Task.{Task, acknowledge}

module _ {R Tx : Type 0} (v : Services R Tx) where
  -- A method of a task that the entry holds: its writes stay in the entry.
  unfoldable pub run :
      ℕ → Exec Running RoundUpdate → RunningTask → Exec (State R Tx) (RoundUpdate × RunningTask)
  unfolding put_task
  run id m t s =
      let (r, w) = m (s.helpers, t) in
      (
        and_then r (λ u. ok (u, w.1)),
        (in_store (put_task id (Task.running w.1)) (record s { helpers = w.0 })).1,
      )

  -- The group that a finished task established enters the database.
  unfoldable pub add_result_group : ℕ → TaskResult → Exec (State R Tx) (Unit {0})
  add_result_group id (group_established g) = do
    database v
        (v.db.add_group g.id id g.name g.threshold g.protocol g.key_type g.certificate g.note)
    pure tt
  add_result_group id _ = pure tt

  -- What an update of a running task does.
  unfoldable pub apply_update : ℕ → RoundUpdate → RunningTask → Exec (State R Tx) (Unit {0})
  unfolding enter add_result_group send_updates as_bytes
  apply_update id listen t = pure tt
  apply_update id group_certificates_sent t = abort
  apply_update id (next_round r) t = do
    database v (v.db.set_task_round id r)
    send_updates v (Task.running t)
  apply_update id (Info.RoundUpdate.failed f) t = do
    database v (v.db.set_task_result id (Verdict.failed f.reason))
    enter v id (Task.failed f)
  apply_update id (Info.RoundUpdate.finished r done) t = do
    database v (v.db.set_task_round id r)
    add_result_group id done.result
    database v (v.db.set_task_result id (Verdict.succeeded (as_bytes done.result)))
    enter v id (Task.finished done)

  -- What the update of a restarted task does.
  unfoldable pub apply_restart : ℕ → RoundUpdate → RunningTask → Exec (State R Tx) (Unit {0})
  unfolding enter send_updates
  apply_restart id listen t = abort
  apply_restart id (Info.RoundUpdate.finished r done) t = abort
  apply_restart id group_certificates_sent t = do
    database v (v.db.set_task_group_certificates_sent id (some true))
    send_updates v (Task.running t)
  apply_restart id (next_round r) t = do
    database v (v.db.set_task_round id r)
    send_updates v (Task.running t)
  apply_restart id (Info.RoundUpdate.failed f) t = do
    database v (v.db.set_task_result id (Verdict.failed f.reason))
    enter v id (Task.failed f)

  unfoldable pub acknowledge_entry : ℕ → Bytes → Task → Exec (State R Tx) (Unit {0})
  unfolding acknowledge put_task
  acknowledge_entry id device_id (Task.finished t) = do
    in_store (put_task id (Task.finished (acknowledge device_id t)))
    database v (v.db.set_task_acknowledgement id device_id)
  acknowledge_entry id device_id _ =
      raise (general_protocol_error "Cannot acknowledge unfinished task")

  -- `StateInner::acknowledge_task`
  unfoldable pub acknowledge_task : ℕ → Bytes → Exec (State R Tx) (Unit {0})
  unfolding acknowledge_entry get_task
  acknowledge_task id device_id = do
    entry ← in_store (get_task v.db id)
    acknowledge_entry id device_id entry

  -- The candidates that had no update for more than thirty seconds.
  unfoldable pub stale : ℕ → List ℕ → Exec (State R Tx) (List ℕ)
  unfolding get_task_last_update
  stale now [] = pure []
  stale now (id ∷ ids) = do
    last_update ← get_task_last_update now id
    rest ← stale now ids
    pure (if ltb 30 (now - last_update) then id ∷ rest else rest)

  module _ ⦃x : Crypto⦄ where
    unfoldable pub update_entry :
        ℕ → ℕ → Bytes → List ClientMessage → ℕ → Task → Exec (State R Tx) (Unit {0})
    unfolding run apply_update update set_task_last_update task_info
    update_entry now id device messages attempt (Task.running t) = do
      set_task_last_update now id
      if not (nat_beq attempt (task_info t).attempts)
          then raise (general_protocol_error "Stale update")
          else (do (u, t') ← run id (update v.helper device messages) t; apply_update id u t')
    update_entry now id device messages attempt _ =
        raise (general_protocol_error "Cannot update non-running task")

    -- `StateInner::update_task`
    unfoldable pub update_task :
        ℕ → ℕ → Bytes → List ClientMessage → ℕ → Exec (State R Tx) (Unit {0})
    unfolding update_entry get_task
    update_task now id device messages attempt = do
      entry ← in_store (get_task v.db id)
      update_entry now id device messages attempt entry

    unfoldable pub restart_entry : ℕ → Task → Exec (State R Tx) (Unit {0})
    unfolding run apply_restart restart set_task_last_update task_info
    restart_entry now (Task.running t) = do
      set_task_last_update now (task_info t).id
      database v (v.db.increment_task_attempt_count (task_info t).id)
      (u, t') ← run (task_info t).id (restart v.helper) t
      apply_restart (task_info t).id u t'
    restart_entry now _ =
        raise (
          persistence_error (data_inconsistency_error "non-running task in candidates for restart"))

    unfoldable pub restart_all : ℕ → List ℕ → Exec (State R Tx) (Unit {0})
    unfolding restart_entry get_task
    restart_all now [] = pure tt
    restart_all now (id ∷ ids) = do
      entry ← in_store (get_task v.db id)
      restart_entry now entry
      restart_all now ids

    -- `StateInner::restart_stale_tasks`
    unfoldable pub restart_stale_tasks : ℕ → Exec (State R Tx) (Unit {0})
    unfolding restart_all stale
    restart_stale_tasks now = do
      all_candidates ← database v v.db.get_restart_candidates
      ids ← stale now all_candidates
      restart_all now ids
