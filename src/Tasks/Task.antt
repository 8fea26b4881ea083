-- ===== src/Tasks/Task.antt =====
-- `Task` of tasks/mod.rs, the phases of a task, and what main.rs makes of them for clients.
use Prim.Native.Char.{code}
use meesign_server.Base.{
  ℕ, ◌+◌, ◌/◌, ◌%◌, String, Option, none, some, List, [], ◌∷◌, ◌++◌, Bytes, bytes_eq, ltb,
  if◌then◌else◌,
}
use meesign_server.Base.Map.{insert}
use meesign_server.Persistence.Enums.{ProtoTaskType, task_into_proto}
use meesign_server.Tasks.Info.{TaskInfo, DeclinedTask, FinishedTask, FailedTask, as_bytes}
use meesign_server.Tasks.Running.{RunningTask, get_round, get_work}
use meesign_server.Tasks.Running
use meesign_server.Tasks.Voting.{VotingTask, accepts_rejects}

pub data Task : Type 0 where
  voting : VotingTask → Task
  running : RunningTask → Task
  declined : DeclinedTask → Task
  finished : FinishedTask → Task
  failed : FailedTask → Task

-- `Task::task_info`
unfoldable pub task_info : Task → TaskInfo
unfolding Running.task_info
task_info (voting t) = t.task_info
task_info (running t) = Running.task_info t
task_info (declined t) = t.task_info
task_info (finished t) = t.task_info
task_info (failed t) = t.task_info

-- The states of a task on the wire.
pub data ProtoTaskState : Type 0 where
  created running finished failed : ProtoTaskState

-- `proto::Task`; an identifier stands for its bytes.
pub record ProtoTask : Type 0 where
  pub id : ℕ
  pub task_type : ProtoTaskType
  pub state : ProtoTaskState
  pub round : ℕ
  pub accept : ℕ
  pub reject : ℕ
  pub content : List Bytes
  pub request : Option Bytes
  pub attempt : ℕ

-- `String::into_bytes`: UTF-8.
unfoldable pub utf8 : ℕ → Bytes
utf8 c =
    if ltb c 128
    then c ∷ []
    else if ltb c 2048
    then (192 + c / 64) ∷ (128 + c % 64) ∷ []
    else if ltb c 65536
    then (224 + c / 4096) ∷ (128 + c / 64 % 64) ∷ (128 + c % 64) ∷ []
    else (240 + c / 262144) ∷ (128 + c / 4096 % 64) ∷ (128 + c / 64 % 64) ∷ (128 + c % 64) ∷ []

unfoldable pub into_bytes : String → Bytes
unfolding utf8
into_bytes String.[] = []
into_bytes (String.◌∷◌ c s) = utf8 (code c) ++ into_bytes s

-- `u16::MAX as u32` and `u32::MAX`
abbrev pub max_u16 : ℕ
max_u16 = 65535

abbrev pub max_u32 : ℕ
max_u32 = 4294967295

-- The work of a running task for the device that asks, if one does.
unfoldable pub work_for : RunningTask → Option Bytes → List Bytes
unfolding get_work
work_for t none = []
work_for t (some device_id) = get_work t device_id

-- The fields that all phases share.
unfoldable pub message :
    TaskInfo → Option Bytes → ProtoTaskState → ℕ → ℕ → ℕ → List Bytes → ProtoTask
message info request state round accept reject content = record {
  id = info.id;
  task_type = task_into_proto info.task_type;
  state = state;
  round = round;
  accept = accept;
  reject = reject;
  content = content;
  request = request;
  attempt = info.attempts;
}

-- `Task::format`, with `created`, `running`, `finished`, `failed` and `declined` of `proto::Task`.
unfoldable pub format : Task → Option Bytes → Option Bytes → ProtoTask
unfolding message accepts_rejects get_round work_for as_bytes into_bytes Running.task_info
format (voting t) device_id request =
    let (accept, reject) = accepts_rejects t.decisions in
    message t.task_info request ProtoTaskState.created 0 accept reject []
format (running t) device_id request =
    message (Running.task_info t) request ProtoTaskState.running (get_round t) max_u16 max_u16
      (work_for t device_id)
format (finished t) device_id request =
    message t.task_info request ProtoTaskState.finished max_u16 max_u16 max_u16
      (as_bytes t.result ∷ [])
format (failed t) device_id request =
    message t.task_info request ProtoTaskState.failed max_u32 max_u32 0 (into_bytes t.reason ∷ [])
format (declined t) device_id request =
    message t.task_info request ProtoTaskState.failed 0 t.accepts t.rejects
      (into_bytes "Task declined" ∷ [])

-- `FinishedTask::acknowledge`
unfoldable pub acknowledge : Bytes → FinishedTask → FinishedTask
acknowledge device_id t = record t { acknowledgements = insert device_id tt t.acknowledgements }
