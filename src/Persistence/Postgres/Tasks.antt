-- ===== src/Persistence/Postgres/Tasks.antt =====
-- persistence/postgres_repository/task.rs: tasks, votes, acknowledgements and results.
use Prim.Native.String.{◌++◌}
use mathlib.Core.Option
use meesign_server.Base.{
  ◌||◌, if◌then◌else◌, ◌&&◌, ◌%◌, true, ◌-◌, false, not, ℕ, ◌+◌, String, Bool, Option, none, some,
  List, map, Bytes, nat_eq, bytes_eq, pair_eq, nat_beq, bytes_beq, ltb, leb, keep, sort, sort_by,
  sum, any,
}
use meesign_server.Base.Exec.{
  ok, Exec, Outcome, or_raise, lift, ◌>>=◌, ◌>>◌, pure, gets, raise, persistence_error,
  invalid_argument_error, try_from_int_error, data_inconsistency_error, execution_error, modify,
}
use meesign_server.Base.Int.{ℤ, pos, as_i8, u32, u16}
use meesign_server.Base.Map.{Map, get, contains_key, keys}
use meesign_server.Persistence.Enums.{ProtocolType, KeyType, TaskType, TaskState}
use meesign_server.Persistence.Models.{TaskModel, TaskResultRow, Verdict, new_task_result}
use meesign_server.Persistence.Names.{is_name_valid}
use meesign_server.Persistence.Postgres.{
  Database, TaskRow, TaskParticipantRow, statement, insert_task, insert_task_participant,
  insert_active_participant, upsert_result, insert_rows, update_row, select, i32_limit, require,
  failure,
}

-- `task_model_columns`, of the left join with the results.
unfoldable pub model_of : ℕ → TaskRow → Option TaskResultRow → TaskModel
model_of id row result = record {
  id = id;
  protocol_round = row.protocol_round;
  attempt_count = row.attempt_count;
  threshold = row.threshold;
  name = row.name;
  task_data = row.task_data;
  preprocessed = row.preprocessed;
  request = row.request;
  group_id = row.group_id;
  task_type = row.task_type;
  task_state = row.task_state;
  key_type = row.key_type;
  protocol_type = row.protocol_type;
  note = row.note;
  group_certificates_sent = row.group_certificates_sent;
  result = result;
}

unfoldable pub model_with : ℕ → Option TaskResultRow → Option TaskRow → Option TaskModel
unfolding model_of
model_with id result none = none
model_with id result (some row) = some (model_of id row result)

-- `get_task`
unfoldable pub get_task : ℕ → Exec Database (Option TaskModel)
unfolding model_with
get_task id = gets (λ db. model_with id (get id db.task_result) (get id db.task))

-- The new task as it is returned.
unfoldable pub read_back : ℕ → Exec Database TaskModel
unfolding get_task
read_back id = do
  found ← get_task id
  lift (
      or_raise
        (persistence_error (data_inconsistency_error "Already created task can't be returned"))
        found)

unfoldable pub insert_task_with : ℕ → TaskRow → List (Bytes × ℕ) → Exec Database TaskModel
unfolding insert_task insert_task_participant read_back
insert_task_with id row participants = do
  statement (insert_task id row)
  statement (insert_rows (insert_task_participant id) participants)
  read_back id

-- The columns of a new task of a group.
unfoldable pub new_threshold_row :
    Bytes → ℕ → String → Bytes → Bytes → TaskType → KeyType → ProtocolType → TaskRow
new_threshold_row group_id threshold name task_data request task_type key_type protocol_type =
    record {
      protocol_round = 0;
      attempt_count = 0;
      threshold = threshold;
      name = name;
      task_data = some task_data;
      preprocessed = none;
      request = request;
      group_id = some group_id;
      task_type = task_type;
      task_state = TaskState.created;
      key_type = key_type;
      protocol_type = protocol_type;
      note = none;
      group_certificates_sent = none;
    }

unfoldable pub create_task :
    ℕ
    → Bytes
    → List (Bytes × ℕ)
    → ℕ
    → String
    → Bytes
    → Bytes
    → TaskType
    → KeyType
    → ProtocolType
    → Exec Database TaskModel
unfolding insert_task_with is_name_valid new_threshold_row
create_task id group_id participants threshold name task_data request task_type key_type
      protocol_type =
    if not (is_name_valid name)
    then raise (persistence_error (invalid_argument_error ("Invalid group name " ++ name)))
    else (insert_task_with id
        (new_threshold_row group_id threshold name task_data request task_type key_type
          protocol_type)
        participants)

-- The columns of a new task that establishes a group.
unfoldable pub new_group_row : ℕ → String → ProtocolType → KeyType → Bytes → Option String → TaskRow
new_group_row threshold name protocol_type key_type request note = record {
  protocol_round = 0;
  attempt_count = 0;
  threshold = threshold;
  name = name;
  task_data = none;
  preprocessed = none;
  request = request;
  group_id = none;
  task_type = TaskType.group;
  task_state = TaskState.created;
  key_type = key_type;
  protocol_type = protocol_type;
  note = note;
  group_certificates_sent = some false;
}

unfoldable pub create_group_task :
    ℕ
    → List (Bytes × ℕ)
    → ℕ
    → String
    → ProtocolType
    → KeyType
    → Bytes
    → Option String
    → Exec Database TaskModel
unfolding insert_task_with is_name_valid sum new_group_row
create_group_task id participants threshold name protocol_type key_type request note =
    if not (is_name_valid name)
    then raise (persistence_error (invalid_argument_error ("Invalid group name " ++ name)))
    else (let total_shares = u32 (sum (map (λ p. p.1) participants)) in
        if not (leb 1 threshold && leb threshold total_shares)
        then raise (persistence_error (invalid_argument_error "Invalid threshold {threshold}"))
        else (if not (ltb threshold i32_limit)
            then raise (persistence_error try_from_int_error)
            else (insert_task_with id
                (new_group_row threshold name protocol_type key_type request note) participants)))

unfoldable pub get_tasks : Exec Database (List ℕ)
unfolding sort
get_tasks = gets (λ db. sort (keys db.task))

unfoldable pub get_task_models : List ℕ → Exec Database (List TaskModel)
unfolding model_of sort_by
get_task_models task_ids = gets λ db.
    sort_by (λ a b. leb a.id b.id)
      (map (λ p. model_of p.0 p.1 (get p.0 db.task_result))
        (keep (λ p. any (nat_beq p.0) task_ids) db.task))

-- `acknowledgment IS NULL OR acknowledgment = FALSE`
abbrev pub is_unacknowledged : Option Bool → Bool
is_unacknowledged none = true
is_unacknowledged (some a) = not a

-- Whether the task of a participant's row is open or not acknowledged.
unfoldable pub is_active_row : Database → Bytes → (ℕ × Bytes) × TaskParticipantRow → Bool
is_active_row db device_id ((task_id, d), p) =
    contains_key task_id db.task
    && bytes_beq d device_id
    && (not (contains_key task_id db.task_result) || is_unacknowledged p.acknowledgment)

unfoldable pub get_active_device_tasks : Bytes → Exec Database (List ℕ)
unfolding is_active_row sort
get_active_device_tasks device_id =
    gets (λ db. sort (map (λ p. p.0.0) (keep (is_active_row db device_id) db.task_participant)))

-- `group_certificates_sent = TRUE`, where NULL is not TRUE.
abbrev pub is_true : Option Bool → Bool
is_true none = false
is_true (some b) = b

-- Whether a task that has no result may have to be restarted.
unfoldable pub is_candidate : Database → ℕ × TaskRow → Bool
is_candidate db (id, row) =
    not (contains_key id db.task_result)
    && (is_true row.group_certificates_sent || leb 1 row.protocol_round)

unfoldable pub get_restart_candidates : Exec Database (List ℕ)
unfolding is_candidate sort
get_restart_candidates = gets (λ db. sort (keys (keep (is_candidate db) db.task)))

unfoldable pub set_task_decision : ℕ → Bytes → Bool → Exec Database (Unit {0})
unfolding update_row
set_task_decision task_id device_id accept = modify λ db. record db {
  task_participant =
      update_row (task_id, device_id)
        (λ (p : TaskParticipantRow). record p { decision = some accept }) db.task_participant;
}

-- A stored decision as a vote: `-shares as i8` casts the negated `i32`.
unfoldable pub stored_vote : TaskParticipantRow → ℤ
stored_vote p = elim p.decision [
  | none ↦ pos 0
  | some true ↦ as_i8 p.shares
  | some false ↦ as_i8 (256 - p.shares % 256)
]

unfoldable pub get_task_decisions : ℕ → Exec Database (Map Bytes ℤ)
unfolding stored_vote select
get_task_decisions task_id =
    gets (λ db. map (λ p. (p.0, stored_vote p.1)) (select task_id db.task_participant))

unfoldable pub set_task_acknowledgement : ℕ → Bytes → Exec Database (Unit {0})
unfolding update_row
set_task_acknowledgement task_id device_id = modify λ db. record db {
  task_participant =
      update_row (task_id, device_id)
        (λ (p : TaskParticipantRow). record p { acknowledgment = some true }) db.task_participant;
}

unfoldable pub get_task_acknowledgements : ℕ → Exec Database (Map Bytes (Unit {0}))
unfolding select
get_task_acknowledgements task_id = gets λ db.
    map (λ p. (p.0, tt))
      (keep (λ (p : Bytes × TaskParticipantRow). is_true p.1.acknowledgment)
        (select task_id db.task_participant))

unfoldable pub get_task_active_shares : ℕ → Exec Database (Map Bytes ℕ)
unfolding select
get_task_active_shares task_id = gets (λ db. select task_id db.active_task_participant)

unfoldable pub set_task_active_shares : ℕ → Map Bytes ℕ → Exec Database (Unit {0})
unfolding insert_active_participant
set_task_active_shares task_id active_shares =
    statement (insert_rows (insert_active_participant task_id) active_shares)

unfoldable pub set_task_result : ℕ → Verdict → Exec Database (Unit {0})
unfolding upsert_result new_task_result
set_task_result task_id result = statement (upsert_result (new_task_result result task_id))

unfoldable pub set_task_group_certificates_sent : ℕ → Option Bool → Exec Database (Unit {0})
unfolding update_row
set_task_group_certificates_sent task_id sent = modify λ db. record db {
  task = update_row task_id (λ (r : TaskRow). record r { group_certificates_sent = sent }) db.task;
}

-- `get_result` of an update: an error where there is no such row.
unfoldable pub returning : {A : Type 0} → ℕ → (TaskRow → A) → Exec Database A
returning task_id column db =
    (or_raise (persistence_error execution_error) (Option.map column (get task_id db.task)), db)

unfoldable pub set_task_round : ℕ → ℕ → Exec Database ℕ
unfolding update_row returning
set_task_round task_id round = do
  modify λ db. record db {
    task = update_row task_id (λ (r : TaskRow). record r { protocol_round = round }) db.task;
  }
  new_round ← returning task_id (λ r. r.protocol_round)
  pure (u16 new_round)

-- The sum is out of the range of `integer` if it reaches 2^31.
unfoldable pub incremented : ℕ → Database → Option TaskRow → Outcome Database
unfolding update_row
incremented task_id db none = failure
incremented task_id db (some row) = require (ltb (row.attempt_count + 1) i32_limit) (
    ok (record db {
      task =
          update_row task_id (λ (r : TaskRow). record r { attempt_count = r.attempt_count + 1 })
            db.task;
    }))

unfoldable pub increment_attempts : ℕ → Database → Outcome Database
unfolding incremented
increment_attempts task_id db = incremented task_id db (get task_id db.task)

unfoldable pub increment_task_attempt_count : ℕ → Exec Database ℕ
unfolding increment_attempts returning
increment_task_attempt_count task_id = do
  statement (increment_attempts task_id)
  returning task_id (λ r. r.attempt_count)
