-- ===== src/Persistence/Postgres.antt =====
-- persistence/postgres_repository.rs: the tables of the migration 2025-08-27-171451_initial_schema
-- and of schema.rs, and the statements on them. A table is a map from its primary key to the other
-- columns, whose order stands for the unspecified order in which a query finds the rows. A column of type `integer` holds a natural number below 2^31:
-- each is 0 or more by a CHECK constraint. The connection does not fail.
pub mod Devices
pub mod Groups
pub mod Tasks
pub mod Repo
pub mod Rows
pub mod Consistent
pub mod Kept
pub mod Statements
pub mod Invariant
pub mod Reached
pub mod Queries
pub mod Results
pub mod Joins
pub mod GroupQueries
pub mod Created
pub mod Reordered
pub mod FreshReads
pub mod ActiveShares
pub mod ActiveTasks
pub mod Progress
use mathlib.Core.Option.{or_else}
use meesign_server.Base.{
  ◌++◌, Eq, not, ℕ, ◌+◌, String, Bool, true, false, Option, none, some, List, [], ◌∷◌, map, Bytes,
  nat_eq, bytes_eq, pair_eq, bytes_beq, nat_beq, if◌then◌else◌, ltb, ◌&&◌, is_some, ◌||◌,
}
use meesign_server.Base.Exec.{
  Exec, Outcome, ok, err, panic, and_then, persistence_error, execution_error,
}
use meesign_server.Base.Map.{Map, get, insert, contains_key}
use meesign_server.Persistence.Enums.{ProtocolType, KeyType, TaskType, TaskState, DeviceKind}
use meesign_server.Persistence.Models.{Device, TaskModel, TaskResultRow}

pub record DeviceRow : Type 0 where
  pub name : String
  pub kind : DeviceKind
  pub certificate : Bytes

pub record GroupRow : Type 0 where
  pub name : String
  pub threshold : ℕ
  pub protocol : ProtocolType
  pub key_type : KeyType
  pub certificate : Option Bytes
  pub note : Option String

pub record TaskRow : Type 0 where
  pub protocol_round : ℕ
  pub attempt_count : ℕ
  pub threshold : ℕ
  pub name : String
  pub task_data : Option Bytes
  pub preprocessed : Option Bytes
  pub request : Bytes
  pub group_id : Option Bytes
  pub task_type : TaskType
  pub task_state : TaskState
  pub key_type : KeyType
  pub protocol_type : ProtocolType
  pub note : Option String
  pub group_certificates_sent : Option Bool

pub record TaskParticipantRow : Type 0 where
  pub shares : ℕ
  pub decision : Option Bool
  pub acknowledgment : Option Bool

-- The key of a row of a task or group for a device. The tables of shares have no other column.
pub record Database : Type 0 where
  pub device : Map Bytes DeviceRow
  pub groups : Map Bytes GroupRow
  pub group_participant : Map (Bytes × Bytes) ℕ
  pub task : Map ℕ TaskRow
  pub task_result : Map ℕ TaskResultRow
  pub task_participant : Map (ℕ × Bytes) TaskParticipantRow
  pub active_task_participant : Map (ℕ × Bytes) ℕ

abbrev pub failure : {A : Type 0} → Outcome A
failure = err (persistence_error execution_error)

-- A constraint of a table: a violation is an error of the statement.
abbrev pub require : {A : Type 0} → Bool → Outcome A → Outcome A
require true r = r
require false r = failure

-- `2 ^ 31`
abbrev pub i32_limit : ℕ
i32_limit = 2147483648

-- A `u32` cast by `as i32` into a column with `CHECK (column > 0)`: from 2^31 up the number is
-- negative.
abbrev pub is_positive_i32 : ℕ → Bool
is_positive_i32 n = ltb 0 n && ltb n i32_limit

-- A statement: one that fails changes nothing.
abbrev pub perform : Outcome Database → Exec Database (Unit {0})
perform (ok db') db = (ok tt, db')
perform (err e) db = (err e, db)
perform panic db = (panic, db)

abbrev pub statement : (Database → Outcome Database) → Exec Database (Unit {0})
statement f db = perform (f db) db

-- `connection.transaction`: rolled back on an error, and on a panic, which drops the connection.
abbrev pub settle : {A : Type 0} → Outcome A → Database → Database → Database
settle (ok a) old new = new
settle (err e) old new = old
settle panic old new = old

unfoldable pub transaction : {A : Type 0} → Exec Database A → Exec Database A
transaction m db = ((m db).0, settle (m db).0 db (m db).1)

-- A `VALUES` list: the rows of one statement, one after another.
abbrev pub insert_rows :
    {A : Type 0} → (A → Database → Outcome Database) → List A → Database → Outcome Database
insert_rows f [] db = ok db
insert_rows f (a ∷ rows) db = and_then (f a db) (insert_rows f rows)

-- The inserts, with the constraints of the tables: primary keys, references and checks.
unfoldable pub insert_device : Device → Database → Outcome Database
insert_device d db = require (not (contains_key d.id db.device)) (
    ok (record db {
      device =
          insert d.id (record { name = d.name; kind = d.kind; certificate = d.certificate })
            db.device;
    }))

unfoldable pub insert_group : Bytes → GroupRow → Database → Outcome Database
insert_group id row db =
    require (not (contains_key id db.groups)) (
      require (is_positive_i32 row.threshold) (ok (record db { groups = insert id row db.groups })))

-- The references to the group, which is inserted first, and to the device.
unfoldable pub insert_group_participant : Bytes → Bytes × ℕ → Database → Outcome Database
insert_group_participant group_id (device_id, shares) db =
    require (not (contains_key (group_id, device_id) db.group_participant)) (
      require (contains_key group_id db.groups && contains_key device_id db.device) (
        require (is_positive_i32 shares) (
          ok (record db {
            group_participant = insert (group_id, device_id) shares db.group_participant;
          }))))

-- A reference that may be NULL.
abbrev pub references_group : Option Bytes → Database → Bool
references_group none db = true
references_group (some id) db = contains_key id db.groups

-- A new task; its counters are 0.
unfoldable pub insert_task : ℕ → TaskRow → Database → Outcome Database
insert_task id row db = require (not (contains_key id db.task)) (
    require (is_positive_i32 row.threshold && references_group row.group_id db)
      (ok (record db { task = insert id row db.task })))

unfoldable pub insert_task_participant : ℕ → Bytes × ℕ → Database → Outcome Database
insert_task_participant task_id (device_id, shares) db =
    require (not (contains_key (task_id, device_id) db.task_participant)) (
      require (contains_key task_id db.task && contains_key device_id db.device) (
        require (is_positive_i32 shares) (
          ok (record db {
            task_participant =
                insert (task_id, device_id)
                  (record { shares = shares; decision = none; acknowledgment = none })
                  db.task_participant;
          }))))

-- `on_conflict(..).do_nothing()`, with the reference to the participants of the task.
unfoldable pub insert_active_participant : ℕ → Bytes × ℕ → Database → Outcome Database
insert_active_participant task_id (device_id, active_shares) db =
    require (is_positive_i32 active_shares) (
      if contains_key (task_id, device_id) db.active_task_participant
      then ok db
      else (require (contains_key (task_id, device_id) db.task_participant) (
          ok (record db {
            active_task_participant =
                insert (task_id, device_id) active_shares db.active_task_participant;
          }))))

-- `.set(&task_result)` on a conflict: `AsChangeset` skips the columns that are `None`, which keep
-- their earlier values.
unfoldable pub changed_result : TaskResultRow → Option TaskResultRow → TaskResultRow
unfolding or_else
changed_result row none = row
changed_result row (some old) = record {
  task_id = row.task_id;
  is_successful = row.is_successful;
  result_data = or_else row.result_data old.result_data;
  error_message = or_else row.error_message old.error_message;
}

-- The CHECK constraint of the table of results.
unfoldable pub meets_check : TaskResultRow → Bool
meets_check r =
    (r.is_successful && is_some r.result_data && not (is_some r.error_message))
    || (not r.is_successful && not (is_some r.result_data) && is_some r.error_message)

-- `on_conflict(..).do_update()`, with the reference to the task and the CHECK constraint.
unfoldable pub upsert_result : TaskResultRow → Database → Outcome Database
unfolding changed_result meets_check
upsert_result row db =
    let stored = changed_result row (get row.task_id db.task_result) in
    require (contains_key row.task_id db.task) (
      require (meets_check stored)
        (ok (record db { task_result = insert row.task_id stored db.task_result })))

-- `update`: the rows of the key, of which there is at most one, by the number of rows changed.
unfoldable pub update_row : {K V : Type 0} → ⦃e : Eq K⦄ → K → (V → V) → Map K V → Map K V
update_row ⦃e⦄ k f [] = []
update_row ⦃e⦄ k f ((j, v) ∷ m) = (j, if e.beq j k then f v else v) ∷ update_row k f m

-- The rows of one table that a column of the key selects, with the rest of the key.
unfoldable pub select : {J K V : Type 0} → ⦃e : Eq J⦄ → J → Map (J × K) V → Map K V
select ⦃e⦄ j [] = []
select ⦃e⦄ j (((i, k), v) ∷ m) = let rest = select j m in if e.beq i j then (k, v) ∷ rest else rest

-- `inner_join` on a condition: the pairs of rows, in some order.
unfoldable pub matching : {A B : Type 0} → (A → B → Bool) → A → List B → List (A × B)
matching on a [] = []
matching on a (b ∷ bs) = let rest = matching on a bs in if on a b then (a, b) ∷ rest else rest

unfoldable pub inner_join : {A B : Type 0} → (A → B → Bool) → List A → List B → List (A × B)
unfolding matching
inner_join on [] bs = []
inner_join on (a ∷ rest) bs = matching on a bs ++ inner_join on rest bs
