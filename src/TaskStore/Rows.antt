-- ===== src/TaskStore/Rows.antt =====
-- What cached_task_store.rs makes of the rows of a task.
use meesign_server.Base.{ℕ, Option, none, some, List, [], ◌∷◌, ◌++◌, Bytes, nat_eq, sum}
use meesign_server.Base.Exec.{and_then, ok, Outcome, panic}
use meesign_server.Base.Int.{u32}
use meesign_server.Base.Map.{Map, get, insert}
use meesign_server.Communicator.{Communicator}
use meesign_server.Persistence.Enums.{TaskType}
use meesign_server.Persistence.Models.{Participant, Group, TaskModel}
use meesign_server.Tasks.DecryptTask
use meesign_server.Tasks.Info.{
  TaskInfo, all_shares, TaskResult, signed, signed_pdf, decrypted, RunningTaskContext,
}
use meesign_server.Tasks.Running.{RunningTask, sign_task, sign_pdf_task, decrypt_task}
use meesign_server.Tasks.SignPdfTask
use meesign_server.Tasks.SignTask

-- The participants of each task, in the order of the rows.
unfoldable pub or_empty : Option (List Participant) → List Participant
or_empty none = []
or_empty (some ps) = ps

unfoldable pub by_task :
    List (ℕ × Participant) → Map ℕ (List Participant) → Map ℕ (List Participant)
unfolding or_empty
by_task [] m = m
by_task ((id, p) ∷ pairs) m = by_task pairs (insert id (or_empty (get id m) ++ (p ∷ [])) m)

-- The `TaskInfo` of a row.
unfoldable pub info_of : TaskModel → List Participant → TaskInfo
info_of model participants = record {
  id = model.id;
  name = model.name;
  task_type = model.task_type;
  protocol_type = model.protocol_type;
  key_type = model.key_type;
  participants = participants;
  observers = [];
  attempts = u32 model.attempt_count;
  request = model.request;
}

-- The result of a finished threshold task; `unreachable!` on a group task.
unfoldable pub result_of : TaskType → Bytes → Outcome TaskResult
result_of TaskType.group content = panic
result_of TaskType.sign_pdf content = ok (signed_pdf content)
result_of TaskType.sign_challenge content = ok (signed content)
result_of TaskType.decrypt content = ok (decrypted content)

-- The context of a threshold task that is voted on.
unfoldable pub context_of : TaskType → Group → Bytes → Outcome RunningTaskContext
context_of TaskType.group g content = panic
context_of TaskType.sign_pdf g content = ok (RunningTaskContext.sign_pdf g content)
context_of TaskType.sign_challenge g content = ok (RunningTaskContext.sign_challenge g content)
context_of TaskType.decrypt g content = ok (RunningTaskContext.decrypt g content)

-- The running task of a threshold task's row.
unfoldable pub running_of :
    TaskType → TaskInfo → TaskModel → Communicator → Group → Outcome RunningTask
unfolding SignPdfTask.from_model SignTask.from_model DecryptTask.from_model
running_of TaskType.group info model c g = panic
running_of TaskType.sign_pdf info model c g =
    and_then (SignPdfTask.from_model info model c g) (λ t. ok (sign_pdf_task t))
running_of TaskType.sign_challenge info model c g =
    and_then (SignTask.from_model info model c g) (λ t. ok (sign_task t))
running_of TaskType.decrypt info model c g =
    and_then (DecryptTask.from_model info model c g) (λ t. ok (decrypt_task t))

-- The threshold of the communicator of a row's task.
unfoldable pub communicator_threshold : TaskType → ℕ → List Participant → ℕ
unfolding sum
communicator_threshold TaskType.group threshold ps = u32 (sum (all_shares ps))
communicator_threshold _ threshold ps = threshold
