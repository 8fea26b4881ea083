-- ===== src/State/Decide.antt =====
-- `decide_task` of state.rs: a vote on a task, and the start of a task that is accepted.
use meesign_server.Base.{ℕ, Bool, true, some, Bytes}
use meesign_server.Base.Exec.{
  Exec, ok, and_then, ◌>>=◌, ◌>>◌, lift, raise, abort, general_protocol_error,
}
use meesign_server.Communicator.Messages.{Crypto}
use meesign_server.Persistence.Models.{Verdict}
use meesign_server.State.{State, Services, in_store, database, set_task_last_update, send_updates}
use meesign_server.State.Choose.{choose_active_shares}
use meesign_server.TaskStore.{get_task, put_task}
use meesign_server.Tasks.Info.{
  RoundUpdate, listen, group_certificates_sent, next_round, DecisionUpdate, undecided, accepted,
}
use meesign_server.Tasks.Info
use meesign_server.Tasks.Running.{RunningTask, create_running_task, initialize}
use meesign_server.Tasks.Task.{Task}
use meesign_server.Tasks.Voting.{VotingTask, decide}

module _ {R Tx : Type 0} (v : Services R Tx) where
  -- The task in its new phase, and its clients told of it.
  unfoldable pub enter : ℕ → Task → Exec (State R Tx) (Unit {0})
  unfolding put_task send_updates
  enter id t = do in_store (put_task id t); send_updates v t

  -- A method of a task that the entry holds: its writes stay in the entry.
  unfoldable pub vote :
      ℕ → Bytes → Bool → VotingTask → Exec (State R Tx) (DecisionUpdate × VotingTask)
  unfolding decide put_task
  vote id device_id accept t s =
      let (r, t') = decide device_id accept t in
      (and_then r (λ u. ok (u, t')), (in_store (put_task id (Task.voting t')) s).1)

  module _ ⦃x : Crypto⦄ where
    -- A method of a task that is not in the cache yet.
    unfoldable pub initialized : RunningTask → Exec (State R Tx) (RoundUpdate × RunningTask)
    unfolding initialize
    initialized t s =
        let (r, w) = initialize v.helper (s.helpers, t) in
        (and_then r (λ u. ok (u, w.1)), record s { helpers = w.0 })

    -- What a new task's first update does.
    unfoldable pub start : ℕ → RoundUpdate → RunningTask → Exec (State R Tx) (Unit {0})
    unfolding enter
    start id listen t = abort
    start id (Info.RoundUpdate.finished r done) t = abort
    start id group_certificates_sent t = do
      database v (v.db.set_task_group_certificates_sent id (some true))
      enter id (Task.running t)
    start id (next_round r) t = do database v (v.db.set_task_round id r); enter id (Task.running t)
    start id (Info.RoundUpdate.failed f) t = do
      database v (v.db.set_task_result id (Verdict.failed f.reason))
      enter id (Task.failed f)

    unfoldable pub accept_task : ℕ → ℕ → VotingTask → Exec (State R Tx) (Unit {0})
    unfolding choose_active_shares create_running_task initialized start
    accept_task now id t = do
      active_shares ← choose_active_shares v now t
      new_task ← lift (create_running_task t.running_task_context t active_shares)
      (u, new_task') ← initialized new_task
      start id u new_task'

    unfoldable pub apply_decision :
        ℕ → ℕ → DecisionUpdate → VotingTask → Exec (State R Tx) (Unit {0})
    unfolding accept_task enter send_updates
    apply_decision now id undecided t = send_updates v (Task.voting t)
    apply_decision now id accepted t = accept_task now id t
    apply_decision now id (Info.DecisionUpdate.declined d) t = do
      database v (v.db.set_task_result id (Verdict.failed "Task declined"))
      enter id (Task.declined d)

    unfoldable pub decide_entry : ℕ → ℕ → Bytes → Bool → Task → Exec (State R Tx) (Unit {0})
    unfolding vote apply_decision set_task_last_update
    decide_entry now id device_id accept (Task.voting t) = do
      set_task_last_update now id
      (u, t') ← vote id device_id accept t
      database v (v.db.set_task_decision id device_id accept)
      apply_decision now id u t'
    decide_entry now id device_id accept _ =
        raise (general_protocol_error "Cannot decide non-voting task")

    -- `StateInner::decide_task`
    unfoldable pub decide_task : ℕ → ℕ → Bytes → Bool → Exec (State R Tx) (Unit {0})
    unfolding decide_entry get_task
    decide_task now id device_id accept = do
      entry ← in_store (get_task v.db id)
      decide_entry now id device_id accept entry
