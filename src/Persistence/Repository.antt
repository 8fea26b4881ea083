-- ===== src/Persistence/Repository.antt =====
-- The trait `Repository` of persistence/repository.rs: the interface of the database to the task
-- store and to the state.
use meesign_server.Base.{ℕ, String, Bool, Option, List, Bytes}
use meesign_server.Base.Exec.{Exec}
use meesign_server.Base.Int.{ℤ}
use meesign_server.Base.Map.{Map}
use meesign_server.Persistence.Enums.{ProtocolType, KeyType, TaskType, DeviceKind}
use meesign_server.Persistence.Models.{Device, Participant, Group, TaskModel, Verdict}

-- The methods as calls on the contents of the database. A call may fail with an error.
pub record Repository (R : Type 0) : Type 0 where
  pub add_device : Bytes → String → DeviceKind → Bytes → Exec R Device
  pub get_devices : Exec R (List Device)
  pub get_group_participants : Bytes → Exec R (List Participant)
  pub get_tasks_participants : List ℕ → Exec R (List (ℕ × Participant))
  pub add_group :
      Bytes → ℕ → String → ℕ → ProtocolType → KeyType → Option Bytes → Option String → Exec R Group
  pub get_group : Bytes → Exec R (Option Group)
  pub get_groups : Exec R (List Group)
  pub get_device_groups : Bytes → Exec R (List Group)
  pub create_group_task :
      ℕ
      → List (Bytes × ℕ)
      → ℕ
      → String
      → ProtocolType
      → KeyType
      → Bytes
      → Option String
      → Exec R TaskModel
  pub create_threshold_task :
      ℕ
      → Bytes
      → List (Bytes × ℕ)
      → ℕ
      → String
      → Bytes
      → Bytes
      → TaskType
      → KeyType
      → ProtocolType
      → Exec R TaskModel
  pub get_task_models : List ℕ → Exec R (List TaskModel)
  pub get_tasks : Exec R (List ℕ)
  pub get_restart_candidates : Exec R (List ℕ)
  pub get_active_device_tasks : Bytes → Exec R (List ℕ)
  pub set_task_decision : ℕ → Bytes → Bool → Exec R (Unit {0})
  pub get_task_decisions : ℕ → Exec R (Map Bytes ℤ)
  pub set_task_acknowledgement : ℕ → Bytes → Exec R (Unit {0})
  pub get_task_acknowledgements : ℕ → Exec R (Map Bytes (Unit {0}))
  pub set_task_active_shares : ℕ → Map Bytes ℕ → Exec R (Unit {0})
  pub get_task_active_shares : ℕ → Exec R (Map Bytes ℕ)
  pub set_task_round : ℕ → ℕ → Exec R ℕ
  pub increment_task_attempt_count : ℕ → Exec R ℕ
  pub set_task_result : ℕ → Verdict → Exec R (Unit {0})
  pub set_task_group_certificates_sent : ℕ → Option Bool → Exec R (Unit {0})
