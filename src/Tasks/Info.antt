-- ===== src/Tasks/Info.antt =====
-- tasks/mod.rs: what all phases of a task share, and the updates that they report.
use meesign_server.Base.{ℕ, String, Option, List, [], map, Bytes, sum}
use meesign_server.Base.Int.{u32}
use meesign_server.Base.Map.{Map}
use meesign_server.Persistence.Enums.{ProtocolType, TaskType, KeyType}
use meesign_server.Persistence.Models.{Participant, Group}

pub record TaskInfo : Type 0 where
  pub id : ℕ
  pub name : String
  pub task_type : TaskType
  pub protocol_type : ProtocolType
  pub key_type : KeyType
  pub participants : List Participant
  pub observers : List Bytes
  pub attempts : ℕ
  pub request : Bytes

abbrev pub all_shares : List Participant → List ℕ
all_shares ps = map (λ p. p.shares) ps

-- `TaskInfo::total_shares`
unfoldable pub total_shares : TaskInfo → ℕ
unfolding sum
total_shares t = u32 (sum (all_shares t.participants))

pub data TaskResult : Type 0 where
  group_established : Group → TaskResult
  signed : Bytes → TaskResult
  signed_pdf : Bytes → TaskResult
  decrypted : Bytes → TaskResult

-- `TaskResult::as_bytes`
unfoldable pub as_bytes : TaskResult → Bytes
as_bytes (group_established g) = g.id
as_bytes (signed content) = content
as_bytes (signed_pdf content) = content
as_bytes (decrypted content) = content

pub record DeclinedTask : Type 0 where
  pub task_info : TaskInfo
  pub accepts : ℕ
  pub rejects : ℕ

-- The set of acknowledgements holds each device once.
pub record FinishedTask : Type 0 where
  pub task_info : TaskInfo
  pub result : TaskResult
  pub acknowledgements : Map Bytes (Unit {0})

pub record FailedTask : Type 0 where
  pub task_info : TaskInfo
  pub reason : String

-- `FinishedTask::new`
unfoldable pub finished_new : TaskInfo → TaskResult → FinishedTask
finished_new info result = record { task_info = info; result = result; acknowledgements = [] }

pub data RoundUpdate : Type 0 where
  listen : RoundUpdate
  group_certificates_sent : RoundUpdate
  next_round : ℕ → RoundUpdate
  finished : ℕ → FinishedTask → RoundUpdate
  failed : FailedTask → RoundUpdate

pub data DecisionUpdate : Type 0 where
  undecided : DecisionUpdate
  accepted : DecisionUpdate
  declined : DeclinedTask → DecisionUpdate

pub data RunningTaskContext : Type 0 where
  group : ℕ → Option String → RunningTaskContext
  sign_challenge : Group → Bytes → RunningTaskContext
  sign_pdf : Group → Bytes → RunningTaskContext
  decrypt : Group → Bytes → RunningTaskContext
