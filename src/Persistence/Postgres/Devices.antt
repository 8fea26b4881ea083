-- ===== src/Persistence/Postgres/Devices.antt =====
-- persistence/postgres_repository/device.rs: devices and the participants of groups and tasks.

use meesign_server.Base.{
  if◌then◌else◌, ◌&&◌, false, true, ℕ, String, Bool, none, some, List, [], ◌∷◌, map, Bytes, nat_eq,
  bytes_eq, pair_eq, nat_beq, leb, any, not, sort_by,
}
use meesign_server.Base.Exec.{
  Exec, ◌>>◌, pure, gets, raise, persistence_error, invalid_argument_error,
}
use meesign_server.Base.Map.{Map, get, contains_key}
use meesign_server.Persistence.Enums.{DeviceKind}
use meesign_server.Persistence.Models.{Device, Participant}
use meesign_server.Persistence.Names.{is_name_valid}
use meesign_server.Persistence.Postgres.{
  Database, DeviceRow, TaskParticipantRow, statement, insert_device, select,
}

-- `Device::as_returning`
unfoldable pub device_of : Bytes → DeviceRow → Device
device_of id row = record {
  id = id;
  name = row.name;
  kind = row.kind;
  certificate = row.certificate;
}

unfoldable pub get_devices : Exec Database (List Device)
unfolding device_of
get_devices = gets (λ db. map (λ p. device_of p.0 p.1) db.device)

-- The join of participants with their devices: a row without a device is left out.
unfoldable pub join_devices : Map Bytes DeviceRow → Map Bytes ℕ → List Participant
unfolding device_of
join_devices devices [] = []
join_devices devices ((id, shares) ∷ rows) =
    let rest = join_devices devices rows in
    elim (get id devices) [
      | none ↦ rest
      | some row ↦ record { device = device_of id row; shares = shares } ∷ rest
    ]

unfoldable pub get_group_participants : Bytes → Exec Database (List Participant)
unfolding join_devices select
get_group_participants group_id =
    gets (λ db. join_devices db.device (select group_id db.group_participant))

-- The join of task_participant, task and device, for the tasks of the list: the query orders its
-- rows by the task, and those of one task come in the unspecified order of the table.
unfoldable pub join_tasks :
    Database → List ℕ → Map (ℕ × Bytes) TaskParticipantRow → List (ℕ × Participant)
unfolding device_of
join_tasks db ids [] = []
join_tasks db ids (((task_id, device_id), p) ∷ rows) =
    let rest = join_tasks db ids rows in
    if any (nat_beq task_id) ids && contains_key task_id db.task
    then (elim (get device_id db.device) [
      | none ↦ rest
      | some row ↦ (task_id, record { device = device_of device_id row; shares = p.shares }) ∷ rest
    ])
    else rest

unfoldable pub get_tasks_participants : List ℕ → Exec Database (List (ℕ × Participant))
unfolding join_tasks sort_by
get_tasks_participants task_ids =
    gets (λ db. sort_by (λ p q. leb p.0 q.0) (join_tasks db task_ids db.task_participant))

-- `slice::is_empty`
abbrev pub is_empty : Bytes → Bool
is_empty [] = true
is_empty (b ∷ bs) = false

unfoldable pub add_device : Bytes → String → DeviceKind → Bytes → Exec Database Device
unfolding is_name_valid insert_device
add_device identifier name kind certificate =
    if not (is_name_valid name)
    then raise (persistence_error (invalid_argument_error "Invalid device name: {name}"))
    else (if is_empty identifier
        then raise (persistence_error (invalid_argument_error "Empty identifier"))
        else (if is_empty certificate
            then raise (persistence_error (invalid_argument_error "Empty certificate"))
            else (do
              let new_device : Device = record {
                id = identifier;
                name = name;
                kind = kind;
                certificate = certificate;
              }
              statement (insert_device new_device)
              pure new_device)))
