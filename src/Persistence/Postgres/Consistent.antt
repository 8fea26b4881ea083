-- ===== src/Persistence/Postgres/Consistent.antt =====
-- The constraints of the tables of persistence/schema.rs as an invariant, and the rules by which
-- the statements of persistence/postgres_repository keep it.
use meesign_server.Base.{
  false, refl, ℕ, ◌<◌, ◌≡◌, Bool, true, some, List, [], ◌∷◌, Bytes, nat_eq, bytes_eq, pair_eq,
}
use meesign_server.Base.Exec.{◌>>◌, Exec, Outcome, ok, err, panic, and_then, continue, ◌>>=◌}
use meesign_server.Base.Map.{get, contains_key, IsMap}
use meesign_server.Persistence.Models.{TaskResultRow, IsChecked}
use meesign_server.Persistence.Postgres.{
  perform, Database, TaskRow, TaskParticipantRow, statement, transaction, settle, insert_rows,
  require, i32_limit,
}

-- The primary keys are unique, the references name rows, and the checks hold.
pub record IsConsistent (db : Database) : Type 0 where
  pub device_keys : IsMap db.device
  pub group_keys : IsMap db.groups
  pub group_participant_keys : IsMap db.group_participant
  pub task_keys : IsMap db.task
  pub result_keys : IsMap db.task_result
  pub participant_keys : IsMap db.task_participant
  pub active_keys : IsMap db.active_task_participant
  pub group_participants_known :
      (g d : Bytes)
      → contains_key (g, d) db.group_participant ≡ true
      → (contains_key g db.groups ≡ true) × (contains_key d db.device ≡ true)
  pub task_groups_known :
      (id : ℕ) (row : TaskRow) (g : Bytes)
      → get id db.task ≡ some row
      → row.group_id ≡ some g
      → contains_key g db.groups ≡ true
  pub results_known :
      (id : ℕ) → contains_key id db.task_result ≡ true → contains_key id db.task ≡ true
  pub participants_known :
      (id : ℕ) (d : Bytes)
      → contains_key (id, d) db.task_participant ≡ true
      → (contains_key id db.task ≡ true) × (contains_key d db.device ≡ true)
  pub active_known :
      (id : ℕ) (d : Bytes)
      → contains_key (id, d) db.active_task_participant ≡ true
      → contains_key (id, d) db.task_participant ≡ true
  pub results_checked :
      (id : ℕ) (row : TaskResultRow)
      → get id db.task_result ≡ some row
      → IsChecked row × (row.task_id ≡ id)
  pub tasks_checked :
      (id : ℕ) (row : TaskRow)
      → get id db.task ≡ some row
      → (0 < row.threshold) × (row.threshold < i32_limit) × (row.attempt_count < i32_limit)
  pub shares_checked :
      (id : ℕ) (d : Bytes) (row : TaskParticipantRow)
      → get (id, d) db.task_participant ≡ some row
      → (0 < row.shares) × (row.shares < i32_limit)

-- A statement on a consistent database ends in an error or leaves a consistent one.
abbrev pub After : Outcome Database → Type 0
After (ok db) = IsConsistent db
After (err e) = Unit
After panic = Unit

abbrev pub Leaves : (Database → Outcome Database) → Type 0
Leaves f = (db : Database) → IsConsistent db → After (f db)

abbrev pub Keeps : {A : Type 0} → Exec Database A → Type 0
Keeps m = (db : Database) → IsConsistent db → IsConsistent (m db).1

pub require-After : (b : Bool) (r : Outcome Database) → (b ≡ true → After r) → After (require b r)
require-After true r h = h refl
require-After false r h = tt

and_then-After :
    (r : Outcome Database) (f : Database → Outcome Database)
    → After r
    → Leaves f
    → After (and_then r f)
and_then-After (ok db) f h hf = hf db h
and_then-After (err e) f h hf = tt
and_then-After panic f h hf = tt

pub insert_rows-Leaves :
    {A : Type 0} (f : A → Database → Outcome Database)
    → ((a : A) → Leaves (f a))
    → (rows : List A) → Leaves (insert_rows f rows)
insert_rows-Leaves f hf [] db c = c
insert_rows-Leaves f hf (a ∷ rows) db c =
    and_then-After (f a db) (insert_rows f rows) (hf a db c) (insert_rows-Leaves f hf rows)

perform-Keeps :
    (r : Outcome Database)
    → (db : Database) → IsConsistent db
    → After r
    → IsConsistent (perform r db).1
perform-Keeps (ok db') db c h = h
perform-Keeps (err e) db c h = c
perform-Keeps panic db c h = c

pub statement-Keeps : (f : Database → Outcome Database) → Leaves f → Keeps (statement f)
statement-Keeps f hf db c = perform-Keeps (f db) db c (hf db c)

settle-Keeps :
    {A : Type 0} (r : Outcome A) (old new : Database)
    → IsConsistent old
    → IsConsistent new
    → IsConsistent (settle r old new)
settle-Keeps (ok a) old new h k = k
settle-Keeps (err e) old new h k = h
settle-Keeps panic old new h k = h

pub transaction-Keeps : {A : Type 0} (m : Exec Database A) → Keeps m → Keeps (transaction m)
unfolding transaction
transaction-Keeps m hm db c = settle-Keeps (m db).0 db (m db).1 c (hm db c)

pub continue-Keeps :
    {A B : Type 0} (f : A → Exec Database B)
    → ((a : A) → Keeps (f a))
    → (r : Outcome A) → Keeps (continue r f)
continue-Keeps f hf (ok a) db c = hf a db c
continue-Keeps f hf (err e) db c = c
continue-Keeps f hf panic db c = c

pub bind-Keeps :
    {A B : Type 0} (m : Exec Database A) (f : A → Exec Database B)
    → Keeps m
    → ((a : A) → Keeps (f a))
    → Keeps (m >>= f)
bind-Keeps m f hm hf db c = continue-Keeps f hf (m db).0 (m db).1 (hm db c)

pub then-Keeps :
    {A B : Type 0} (m : Exec Database A) (n : Exec Database B) → Keeps m → Keeps n → Keeps (m >> n)
then-Keeps m n hm hn = bind-Keeps m (λ a. n) hm (λ a. hn)
