-- ===== src/Persistence/Postgres/Invariant.antt =====
-- Every call of persistence/postgres_repository.rs keeps the constraints of the tables.
use meesign_server.Base.{
  ℕ, Bool, true, false, Bytes, String, List, Option, if◌then◌else◌, leb, ltb, not, refl, sum, map,
  ◌&&◌, ◌≡◌,
}
use meesign_server.Base.Exec.{◌>>=◌, pure, gets, ◌>>◌, Exec}
use meesign_server.Base.Int.{u32}
use meesign_server.Base.Map.{Map}
use meesign_server.Persistence.Enums.{DeviceKind, ProtocolType, KeyType, TaskType}
use meesign_server.Persistence.Models.{Device, Verdict}
use meesign_server.Persistence.Names.{is_name_valid}
use meesign_server.Persistence.Postgres.{
  insert_device, statement, i32_limit, Database, insert_rows, insert_group_participant,
  insert_group, insert_task, insert_task_participant, TaskRow,
}
use meesign_server.Persistence.Postgres.Consistent.{
  then-Keeps, Keeps, continue-Keeps, statement-Keeps, insert_rows-Leaves,
}
use meesign_server.Persistence.Postgres.Devices.{is_empty}
use meesign_server.Persistence.Postgres.Devices
use meesign_server.Persistence.Postgres.Groups.{task_devices, new_group}
use meesign_server.Persistence.Postgres.Groups
use meesign_server.Persistence.Postgres.Kept.{updated_task, updated_participant}
use meesign_server.Persistence.Postgres.Statements.{
  insert_device-Leaves, insert_group-Leaves, insert_group_participant-Leaves, insert_task-Leaves,
  insert_task_participant-Leaves, insert_active_participant-Leaves, set_task_result-Leaves,
  increment_attempts-Leaves,
}
use meesign_server.Persistence.Postgres.Tasks.{read_back}
use meesign_server.Persistence.Postgres.Tasks

if-Keeps :
    {A : Type 0} (b : Bool) (m n : Exec Database A) → Keeps m → Keeps n → Keeps (if b then m else n)
if-Keeps true m n hm hn = hm
if-Keeps false m n hm hn = hn

abbrev the_device : Bytes → String → DeviceKind → Bytes → Device
the_device id name kind certificate = record {
  id = id;
  name = name;
  kind = kind;
  certificate = certificate;
}

pub add_device-Keeps :
    (id : Bytes) (name : String) (kind : DeviceKind) (certificate : Bytes)
    → Keeps (Devices.add_device id name kind certificate)
unfolding Devices.add_device
add_device-Keeps id name kind certificate =
    if-Keeps (not (is_name_valid name)) _ _ (λ db c. c)
      (if-Keeps (is_empty id) _ _ (λ db c. c)
        (if-Keeps (is_empty certificate) _ _ (λ db c. c)
          (then-Keeps (statement (insert_device (the_device id name kind certificate)))
            (pure (the_device id name kind certificate))
            (statement-Keeps _ (insert_device-Leaves (the_device id name kind certificate)))
            (λ db c. c))))

fill_group-Keeps : (id : Bytes) (devices : List (Bytes × ℕ)) → Keeps (Groups.fill_group id devices)
unfolding Groups.fill_group Groups.get_group
fill_group-Keeps id devices db c =
    continue-Keeps _ (λ a db' c'. c') _ _
      (statement-Keeps (insert_rows (insert_group_participant id) devices)
        (insert_rows-Leaves _ (insert_group_participant-Leaves id) devices) db c)

pub add_group-Keeps :
    (id : Bytes) (task_id : ℕ) (name : String) (threshold : ℕ) (protocol : ProtocolType)
    (key_type : KeyType) (certificate : Option Bytes) (remark : Option String)
    → Keeps (Groups.add_group id task_id name threshold protocol key_type certificate remark)
unfolding Groups.add_group
add_group-Keeps id task_id name threshold protocol key_type certificate remark =
    if-Keeps (not (ltb threshold i32_limit)) _ _ (λ db c. c)
      (if-Keeps (is_empty id) _ _ (λ db c. c)
        (then-Keeps
          (statement
            (insert_group id (new_group name threshold protocol key_type certificate remark)))
          (gets (task_devices task_id) >>= Groups.fill_group id)
          (statement-Keeps _ (
            insert_group-Leaves id (new_group name threshold protocol key_type certificate remark)))
          (λ db c. fill_group-Keeps id (task_devices task_id db) db c)))

insert_task_with-Keeps :
    (id : ℕ) (row : TaskRow) (ps : List (Bytes × ℕ))
    → row.attempt_count ≡ 0
    → Keeps (Tasks.insert_task_with id row ps)
unfolding Tasks.insert_task_with Tasks.read_back Tasks.get_task
insert_task_with-Keeps id row ps new =
    then-Keeps (statement (insert_task id row))
      (statement (insert_rows (insert_task_participant id) ps) >> read_back id)
      (statement-Keeps _ (insert_task-Leaves id row new))
      (then-Keeps (statement (insert_rows (insert_task_participant id) ps)) (read_back id)
        (statement-Keeps _ (insert_rows-Leaves _ (insert_task_participant-Leaves id) ps))
        (λ db c. c))

pub create_task-Keeps :
    (id : ℕ) (group_id : Bytes) (ps : List (Bytes × ℕ)) (threshold : ℕ) (name : String)
    (content request : Bytes) (task_type : TaskType) (key_type : KeyType) (protocol : ProtocolType)
    → Keeps (
        Tasks.create_task id group_id ps threshold name content request task_type key_type protocol)
unfolding Tasks.create_task Tasks.new_threshold_row
create_task-Keeps id group_id ps threshold name content request task_type key_type protocol =
    if-Keeps (not (is_name_valid name)) _ _ (λ db c. c)
      (insert_task_with-Keeps id
        (Tasks.new_threshold_row group_id threshold name content request task_type key_type
          protocol)
        ps refl)

pub create_group_task-Keeps :
    (id : ℕ) (ps : List (Bytes × ℕ)) (threshold : ℕ) (name : String) (protocol : ProtocolType)
    (key_type : KeyType) (request : Bytes) (remark : Option String)
    → Keeps (Tasks.create_group_task id ps threshold name protocol key_type request remark)
unfolding Tasks.create_group_task Tasks.new_group_row
create_group_task-Keeps id ps threshold name protocol key_type request remark =
    if-Keeps (not (is_name_valid name)) _ _ (λ db c. c)
      (if-Keeps (not (leb 1 threshold && leb threshold (u32 (sum (map (λ p. p.1) ps))))) _ _
        (λ db c. c)
        (if-Keeps (not (ltb threshold i32_limit)) _ _ (λ db c. c)
          (insert_task_with-Keeps id
            (Tasks.new_group_row threshold name protocol key_type request remark) ps refl)))

module _ (id : ℕ) where
  pub decision-Keeps : (d : Bytes) (accept : Bool) → Keeps (Tasks.set_task_decision id d accept)
  unfolding Tasks.set_task_decision
  decision-Keeps d accept db c = updated_participant db c id d _ (λ r. refl)

  pub acknowledgement-Keeps : (d : Bytes) → Keeps (Tasks.set_task_acknowledgement id d)
  unfolding Tasks.set_task_acknowledgement
  acknowledgement-Keeps d db c = updated_participant db c id d _ (λ r. refl)

  pub active_shares-Keeps : (shares : Map Bytes ℕ) → Keeps (Tasks.set_task_active_shares id shares)
  unfolding Tasks.set_task_active_shares
  active_shares-Keeps shares =
      statement-Keeps _ (insert_rows-Leaves _ (insert_active_participant-Leaves id) shares)

  pub result-Keeps : (v : Verdict) → Keeps (Tasks.set_task_result id v)
  unfolding Tasks.set_task_result
  result-Keeps v = statement-Keeps _ (set_task_result-Leaves id v)

  pub certificates-Keeps :
      (sent : Option Bool) → Keeps (Tasks.set_task_group_certificates_sent id sent)
  unfolding Tasks.set_task_group_certificates_sent
  certificates-Keeps sent db c = updated_task db c id _ (λ r. refl) (c.tasks_checked id)

  pub round-Keeps : (round : ℕ) → Keeps (Tasks.set_task_round id round)
  unfolding Tasks.set_task_round Tasks.returning
  round-Keeps round db c =
      continue-Keeps _ (λ a db' c'. c') _ _
        (updated_task db c id _ (λ r. refl) (c.tasks_checked id))

  pub attempts-Keeps : Keeps (Tasks.increment_task_attempt_count id)
  unfolding Tasks.increment_task_attempt_count Tasks.returning
  attempts-Keeps db c =
      continue-Keeps _ (λ a db' c'. c') _ _ (statement-Keeps _ (increment_attempts-Leaves id) db c)
