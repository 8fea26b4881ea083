-- ===== src/TaskStore/Hydrate.antt =====
-- The hydration of cached_task_store.rs: a task is rebuilt from its rows.
use meesign_server.Base.{
  ℕ, ◌+◌, ◌-◌, none, some, List, [], ◌∷◌, nat_eq, not, if◌then◌else◌, leb, ltb, nat_beq, length,
}
use meesign_server.Base.Exec.{
  Exec, ◌>>=◌, pure, lift, raise, or_raise, unwrap, general_protocol_error, persistence_error,
  data_inconsistency_error,
}
use meesign_server.Base.Int.{u32}
use meesign_server.Base.Map.{Map, get, remove}
use meesign_server.Communicator.{Communicator}
use meesign_server.Communicator
use meesign_server.Persistence.Enums.{TaskType, protocol_into_proto}
use meesign_server.Persistence.Models.{
  Participant, Group, TaskModel, Verdict, succeeded, failed, try_into_result,
}
use meesign_server.Persistence.Repository.{Repository}
use meesign_server.Shares.{sorted, restore}
use meesign_server.TaskStore.Rows.{
  by_task, info_of, result_of, context_of, running_of, communicator_threshold,
}
use meesign_server.Tasks.GroupTask
use meesign_server.Tasks.Info.{TaskInfo, total_shares, group_established, RunningTaskContext}
use meesign_server.Tasks.Running.{group_task}
use meesign_server.Tasks.Task.{Task}
use meesign_server.Tasks.Voting.{accepts_rejects}

module _ {R : Type 0} (db : Repository R) where
  unfoldable pub hydrate_communicator : TaskModel → List Participant → Exec R Communicator
  unfolding restore sorted communicator_threshold
  hydrate_communicator model participants = do
    active_shares ← db.get_task_active_shares model.id
    assigned ← lift (restore (sorted participants) active_shares)
    lift (
        Communicator.new
          (communicator_threshold model.task_type model.threshold (sorted participants))
          (protocol_into_proto model.protocol_type) assigned)

  -- A task that ended: `ok` with its result, or declined, or failed.
  unfoldable pub ended_group_task : TaskInfo → Verdict → Exec R Task
  unfolding accepts_rejects
  ended_group_task info (succeeded group_id) = do
    found ← db.get_group group_id
    g ← lift (
        or_raise
          (persistence_error
            (data_inconsistency_error "Group task result references nonexistent group"))
          found)
    acknowledgements ← db.get_task_acknowledgements info.id
    pure (
        Task.finished (record {
          task_info = info;
          result = group_established g;
          acknowledgements = acknowledgements;
        }))
  ended_group_task info (failed reason) = do
    decisions ← db.get_task_decisions info.id
    let (accepts, rejects) = accepts_rejects decisions
    pure (
        if ltb 0 rejects
        then Task.declined (record { task_info = info; accepts = accepts; rejects = rejects })
        else Task.failed (record { task_info = info; reason = reason }))

  unfoldable pub open_group_task : TaskInfo → TaskModel → Exec R Task
  unfolding accepts_rejects total_shares hydrate_communicator GroupTask.from_model
  open_group_task info model = do
    decisions ← db.get_task_decisions model.id
    if ltb (accepts_rejects decisions).0 (total_shares info)
        then pure (
            Task.voting (record {
              task_info = info;
              decisions = decisions;
              accept_threshold = total_shares info;
              running_task_context = RunningTaskContext.group model.threshold model.note;
            }))
        else (do
          c ← hydrate_communicator model info.participants
          t ← lift (GroupTask.from_model info model c)
          pure (Task.running (group_task t)))

  unfoldable pub group_task_from_model : TaskInfo → TaskModel → Exec R Task
  unfolding ended_group_task open_group_task try_into_result
  group_task_from_model info model = elim model.result [
    | none ↦ open_group_task info model
    | some row ↦ (do verdict ← lift (try_into_result row); ended_group_task info verdict)
  ]

  unfoldable pub ended_threshold_task : TaskInfo → TaskModel → Verdict → Exec R Task
  unfolding accepts_rejects total_shares result_of
  ended_threshold_task info model (succeeded content) = do
    result ← lift (result_of model.task_type content)
    acknowledgements ← db.get_task_acknowledgements model.id
    pure (
        Task.finished
          (record { task_info = info; result = result; acknowledgements = acknowledgements }))
  ended_threshold_task info model (failed reason) = do
    decisions ← db.get_task_decisions model.id
    let (accepts, rejects) = accepts_rejects decisions
    pure (
        if leb (u32 (u32 (total_shares info + 4294967296 - model.threshold) + 1)) rejects
        then Task.declined (record { task_info = info; accepts = accepts; rejects = rejects })
        else Task.failed (record { task_info = info; reason = reason }))

  -- A task of a known group that has not ended.
  unfoldable pub open_task : TaskInfo → TaskModel → Group → Exec R Task
  unfolding accepts_rejects context_of running_of hydrate_communicator
  open_task info model g = do
    decisions ← db.get_task_decisions model.id
    if ltb (accepts_rejects decisions).0 g.threshold
        then (do
          content ← lift (
              or_raise
                (persistence_error (data_inconsistency_error "Threshold task has no task data"))
                model.task_data)
          context ← lift (context_of model.task_type g content)
          pure (
              Task.voting (record {
                task_info = info;
                decisions = decisions;
                accept_threshold = g.threshold;
                running_task_context = context;
              })))
        else (do
          c ← hydrate_communicator model info.participants
          t ← lift (running_of model.task_type info model c g)
          pure (Task.running t))

  unfoldable pub open_threshold_task : TaskInfo → TaskModel → Exec R Task
  unfolding open_task
  open_threshold_task info model = do
    group_id ← lift (
        or_raise (persistence_error (data_inconsistency_error "Threshold task is missing a group"))
          model.group_id)
    found ← db.get_group group_id
    g ← lift (
        or_raise
          (persistence_error
            (data_inconsistency_error "Threshold task references nonexistent group"))
          found)
    open_task info model g

  unfoldable pub threshold_task_from_model : TaskInfo → TaskModel → Exec R Task
  unfolding ended_threshold_task open_threshold_task try_into_result
  threshold_task_from_model info model = elim model.result [
    | none ↦ open_threshold_task info model
    | some row ↦ (do verdict ← lift (try_into_result row); ended_threshold_task info model verdict)
  ]

  unfoldable pub task_from_model : TaskType → TaskInfo → TaskModel → Exec R Task
  unfolding group_task_from_model threshold_task_from_model
  task_from_model TaskType.group = group_task_from_model
  task_from_model TaskType.sign_challenge = threshold_task_from_model
  task_from_model TaskType.sign_pdf = threshold_task_from_model
  task_from_model TaskType.decrypt = threshold_task_from_model

  -- The loop of `hydrate_tasks`: a task without participants is a panic.
  unfoldable pub hydrate_models : List TaskModel → Map ℕ (List Participant) → Exec R (List Task)
  unfolding task_from_model info_of
  hydrate_models [] by_id = pure []
  hydrate_models (model ∷ models) by_id = do
    participants ← lift (unwrap (get model.id by_id))
    t ← task_from_model model.task_type (info_of model participants) model
    ts ← hydrate_models models (remove model.id by_id)
    pure (t ∷ ts)

  unfoldable pub hydrate_tasks : List ℕ → Exec R (List Task)
  unfolding hydrate_models by_task
  hydrate_tasks ids = do
    models ← db.get_task_models ids
    if not (nat_beq (length models) (length ids))
        then raise (general_protocol_error "Invalid task id(s)")
        else (do pairs ← db.get_tasks_participants ids; hydrate_models models (by_task pairs []))
