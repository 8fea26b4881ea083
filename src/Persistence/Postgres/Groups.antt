-- ===== src/Persistence/Postgres/Groups.antt =====
-- persistence/postgres_repository/group.rs: groups. No query orders its rows: they come in the
-- unspecified order of the tables.

use meesign_server.Base.{
  not, if◌then◌else◌, ℕ, String, Option, none, some, List, [], ◌∷◌, ◌++◌, map, Bytes, nat_eq,
  bytes_eq, pair_eq, bytes_beq, ltb, keep,
}
use meesign_server.Base.Exec.{
  Exec, or_raise, lift, ◌>>=◌, ◌>>◌, gets, raise, persistence_error, invalid_argument_error,
  try_from_int_error, data_inconsistency_error,
}
use meesign_server.Base.Map.{Map, get, insert, remove}
use meesign_server.Persistence.Enums.{ProtocolType, KeyType}
use meesign_server.Persistence.Models.{Group}
use meesign_server.Persistence.Postgres.{
  Database, GroupRow, statement, insert_group, insert_group_participant, insert_rows, select,
  inner_join, i32_limit,
}
use meesign_server.Persistence.Postgres.Devices.{is_empty}

abbrev pub GroupShares : Type 0
GroupShares = (Bytes × Bytes) × ℕ

-- `entry(group_id).or_default()`
unfoldable pub or_default : Option (List (Bytes × ℕ)) → List (Bytes × ℕ)
or_default none = []
or_default (some ps) = ps

-- The loop that gathers the participants of each group.
unfoldable pub by_group :
    List GroupShares → Map Bytes (List (Bytes × ℕ)) → Map Bytes (List (Bytes × ℕ))
unfolding or_default
by_group [] m = m
by_group (((group_id, device_id), shares) ∷ rows) m =
    by_group rows (insert group_id (or_default (get group_id m) ++ ((device_id, shares) ∷ [])) m)

unfoldable pub group_of_row : Bytes → GroupRow → List (Bytes × ℕ) → Group
group_of_row id row participant_ids_shares = record {
  id = id;
  name = row.name;
  threshold = row.threshold;
  protocol = row.protocol;
  key_type = row.key_type;
  certificate = row.certificate;
  note = row.note;
  participant_ids_shares = participant_ids_shares;
}

-- The closure that takes the participants of each group out of the map.
unfoldable pub with_participants :
    List (Bytes × GroupRow) → Map Bytes (List (Bytes × ℕ)) → List Group
unfolding group_of_row or_default
with_participants [] m = []
with_participants ((id, row) ∷ rows) m =
    group_of_row id row (or_default (get id m)) ∷ with_participants rows (remove id m)

unfoldable pub get_groups : Exec Database (List Group)
unfolding with_participants by_group
get_groups = gets (λ db. with_participants db.groups (by_group db.group_participant []))

unfoldable pub group_with : Bytes → List (Bytes × ℕ) → Option GroupRow → Option Group
unfolding group_of_row
group_with id participants none = none
group_with id participants (some row) = some (group_of_row id row participants)

unfoldable pub get_group : Bytes → Exec Database (Option Group)
unfolding group_with select
get_group id = gets (λ db. group_with id (select id db.group_participant) (get id db.groups))

-- The rows of the groups of a device: a self-join of the table on the group.
unfoldable pub device_group_rows : Bytes → Map (Bytes × Bytes) ℕ → List GroupShares
unfolding inner_join
device_group_rows device_id rows =
    map (λ p. p.0)
      (keep (λ p. bytes_beq p.1.0.1 device_id)
        (inner_join (λ p q. bytes_beq q.0.0 p.0.0) rows rows))

-- The groups joined with their participants, of whom the device is one.
unfoldable pub device_groups : Bytes → Database → List (Bytes × GroupRow)
unfolding inner_join
device_groups device_id db =
    map (λ p. p.0)
      (keep (λ p. bytes_beq p.1.0.1 device_id)
        (inner_join (λ p q. bytes_beq q.0.0 p.0) db.groups db.group_participant))

unfoldable pub get_device_groups : Bytes → Exec Database (List Group)
unfolding device_groups device_group_rows with_participants by_group
get_device_groups device_id = gets (λ db.
    with_participants (device_groups device_id db)
      (by_group (device_group_rows device_id db.group_participant) []))

-- The devices and shares of the participants of a task.
unfoldable pub task_devices : ℕ → Database → List (Bytes × ℕ)
unfolding select
task_devices task_id db = elim (get task_id db.task) [
  | none ↦ []
  | some row ↦ map (λ p. (p.0, p.1.shares)) (select task_id db.task_participant)
]

-- The participants of the task become those of the group, which is then read back.
unfoldable pub fill_group : Bytes → List (Bytes × ℕ) → Exec Database Group
unfolding insert_group_participant get_group
fill_group id devices = do
  statement (insert_rows (insert_group_participant id) devices)
  found ← get_group id
  lift (
      or_raise (persistence_error (data_inconsistency_error "Already created group was not found!"))
        found)

-- `NewGroup`
unfoldable pub new_group :
    String → ℕ → ProtocolType → KeyType → Option Bytes → Option String → GroupRow
new_group name threshold protocol key_type certificate note = record {
  name = name;
  threshold = threshold;
  protocol = protocol;
  key_type = key_type;
  certificate = certificate;
  note = note;
}

unfoldable pub add_group :
    Bytes
    → ℕ
    → String
    → ℕ
    → ProtocolType
    → KeyType
    → Option Bytes
    → Option String
    → Exec Database Group
unfolding task_devices insert_group fill_group new_group
add_group id group_task_id name threshold protocol key_type certificate note =
    if not (ltb threshold i32_limit)
    then raise (persistence_error try_from_int_error)
    else (if is_empty id
        then raise (persistence_error (invalid_argument_error "Empty identifier"))
        else (do
          statement (insert_group id (new_group name threshold protocol key_type certificate note))
          devices ← gets (task_devices group_task_id)
          fill_group id devices))
