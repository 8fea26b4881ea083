-- ===== src/Persistence/Models.antt =====
-- persistence/models.rs: devices, participants, groups, and the rows of tasks and their results.
use meesign_server.Base.{
  is_some, Option-cases, arith, ℕ, String, Bool, true, false, Option, none, some, List, Bytes, ◌≡◌,
  refl, inl, inr, ◌⊎◌,
}
use meesign_server.Base.Exec.{Outcome, ok, err, persistence_error, data_inconsistency_error}
use meesign_server.Persistence.Enums.{DeviceKind, KeyType, ProtocolType, TaskState, TaskType}

pub record Device : Type 0 where
  pub id : Bytes
  pub name : String
  pub kind : DeviceKind
  pub certificate : Bytes

-- `Device::identifier`
abbrev pub identifier : Device → Bytes
identifier d = d.id

pub record Participant : Type 0 where
  pub device : Device
  pub shares : ℕ

pub record Group : Type 0 where
  pub id : Bytes
  pub name : String
  pub threshold : ℕ
  pub protocol : ProtocolType
  pub key_type : KeyType
  pub certificate : Option Bytes
  pub note : Option String
  pub participant_ids_shares : List (Bytes × ℕ)

-- The row of a task's outcome.
pub record TaskResultRow : Type 0 where
  pub task_id : ℕ
  pub is_successful : Bool
  pub result_data : Option Bytes
  pub error_message : Option String

-- The row of a task, joined with its outcome if it has one.
pub record TaskModel : Type 0 where
  pub id : ℕ
  pub protocol_round : ℕ
  pub attempt_count : ℕ
  pub threshold : ℕ
  pub name : String
  pub task_data : Option Bytes
  pub preprocessed : Option Bytes
  pub request : Bytes
  pub group_id : Option Bytes
  pub task_type : TaskType
  pub task_state : TaskState
  pub key_type : KeyType
  pub protocol_type : ProtocolType
  pub note : Option String
  pub group_certificates_sent : Option Bool
  pub result : Option TaskResultRow

-- `Result<Vec<u8>, String>`: how a task ended.
pub data Verdict : Type 0 where
  succeeded : Bytes → Verdict
  failed : String → Verdict

-- `TaskResult::try_into_result`, by the three fields that it reads.
unfoldable pub verdict_of : Bool → Option Bytes → Option String → Outcome Verdict
verdict_of true (some d) e = ok (succeeded d)
verdict_of true none e =
    err (persistence_error (data_inconsistency_error "Inconsistent task result"))
verdict_of false d (some e) = ok (failed e)
verdict_of false d none =
    err (persistence_error (data_inconsistency_error "Inconsistent task result"))

unfoldable pub try_into_result : TaskResultRow → Outcome Verdict
unfolding verdict_of
try_into_result r = verdict_of r.is_successful r.result_data r.error_message

-- `NewTaskResult::from`
unfoldable pub new_task_result : Verdict → ℕ → TaskResultRow
new_task_result (succeeded d) i = record {
  task_id = i;
  is_successful = true;
  result_data = some d;
  error_message = none;
}
new_task_result (failed e) i = record {
  task_id = i;
  is_successful = false;
  result_data = none;
  error_message = some e;
}

-- The CHECK constraint of the table `task_result` (migrations/2025-08-27-171451_initial_schema).
abbrev pub IsChecked : TaskResultRow → Type 0
IsChecked r =
    ((r.is_successful ≡ true) × (is_some r.result_data ≡ true) × (r.error_message ≡ none))
    ⊎ ((r.is_successful ≡ false) × (r.result_data ≡ none) × (is_some r.error_message ≡ true))

new_task_result-IsChecked : (v : Verdict) (i : ℕ) → IsChecked (new_task_result v i)
unfolding new_task_result
new_task_result-IsChecked (succeeded d) i = inl (refl, refl, refl)
new_task_result-IsChecked (failed e) i = inr (refl, refl, refl)

pub try_into_result_new : (v : Verdict) (i : ℕ) → try_into_result (new_task_result v i) ≡ ok v
unfolding try_into_result new_task_result
try_into_result_new (succeeded d) i = refl
try_into_result_new (failed e) i = refl

verdict_of_checked :
    (r : TaskResultRow)
    → IsChecked r
    → (v : Verdict) × (try_into_result r ≡ ok v) × (new_task_result v r.task_id ≡ r)
unfolding try_into_result new_task_result
verdict_of_checked r (inl (s, d, e)) = elim (Option-cases r.result_data) [
  | inl absent ↦ absurd (cc)
  | inr (bytes, present) ↦ (succeeded bytes, rw (s, present, verdict_of) refl, ground arith)
]
verdict_of_checked r (inr (s, d, e)) = elim (Option-cases r.error_message) [
  | inl absent ↦ absurd (cc)
  | inr (text, present) ↦ (failed text, unfold verdict_of in rw (s, present) refl, ground arith)
]

-- The rows that pass the CHECK constraint of the table of results are those of verdicts: a
-- verdict's row passes it and reads back as the verdict, and a row that passes it reads as a
-- verdict whose row it is.
pub verdict_roundtrip :
    (v : Verdict) (i : ℕ) (r : TaskResultRow)
    → IsChecked r
    → IsChecked (new_task_result v i)
      × (try_into_result (new_task_result v i) ≡ ok v)
      × ((w : Verdict) × (try_into_result r ≡ ok w) × (new_task_result w r.task_id ≡ r))
verdict_roundtrip v i r checked =
    (new_task_result-IsChecked v i, try_into_result_new v i, verdict_of_checked r checked)
