-- ===== src/Persistence/Postgres/ActiveShares.antt =====
-- The active shares of tasks, as persistence/postgres_repository/task.rs stores and reads them.
use meesign_server.Base.{
  ℕ, ◌≡◌, refl, ◌∙◌, ap, sym, Bool, true, false, Option, none, some, [], ◌∷◌, Bytes, arith, nat_eq,
  bytes_eq, pair_eq, nat_beq_iff, bytes_beq_iff, bytes_beq, if◌then◌else◌,
}
use meesign_server.Base.Exec.{Outcome, ok, err, panic}
use meesign_server.Base.Map.{Map, get, insert, get-insert, contains_key}
use meesign_server.Persistence.Postgres.{
  require, select, Database, perform, insert_rows, insert_active_participant, is_positive_i32,
}
use meesign_server.Persistence.Postgres.Created.{ok_inj, required, and_then-ok}
use meesign_server.Persistence.Postgres.Rows.{get-select}
use meesign_server.Persistence.Postgres.Tasks.{set_task_active_shares, get_task_active_shares}

-- The first of two choices for a device.
abbrev pub earlier : Option ℕ → Option ℕ → Option ℕ
earlier (some n) m = some n
earlier none m = m

if-ok :
    (b known : Bool) (old new db' : Database)
    → (if b then ok old else require known (ok new)) ≡ ok db'
    → db' ≡ (if b then old else new)
if-ok true known old new db' h = ok_inj (sym h)
if-ok false known old new db' h = ok_inj (sym (required known (ok new) db' h).1)

-- A row that is there already stays.
added_row :
    (id : ℕ) (d j : Bytes) (n : ℕ) (m : Map (ℕ × Bytes) ℕ)
    → get (id, j) (if contains_key (id, d) m then m else insert (id, d) n m)
      ≡ earlier (get (id, j) m) (if bytes_beq d j then some n else none)
added_row id d j n m =
    ground (arith, get-insert (id, d) (id, j) n m, bytes_beq_iff d j, nat_beq_iff id id)

stored_one :
    (id : ℕ) (d : Bytes) (n : ℕ) (db db' : Database)
    → insert_active_participant id (d, n) db ≡ ok db'
    → (j : Bytes)
    → get (id, j) db'.active_task_participant
      ≡ earlier (get (id, j) db.active_task_participant) (if bytes_beq d j then some n else none)
unfolding insert_active_participant
stored_one id d n db db' h j =
    let (positive, h1) = required (is_positive_i32 n) _ db' h in
    let m = db.active_task_participant in
    let b = contains_key (id, d) m in
    let same =
      if-ok b (contains_key (id, d) db.task_participant) db
        (record db { active_task_participant = insert (id, d) n m }) db' h1 in
    ap (λ (x : Database). get (id, j) x.active_task_participant) same
    ∙ pushed b db (insert (id, d) n m) j
    ∙ added_row id d j n m
  where
    pushed :
        (b : Bool) (db : Database) (m : Map (ℕ × Bytes) ℕ) (j : Bytes)
        → get
            (id, j)
            (if b then db else record db { active_task_participant = m }).active_task_participant
          ≡ get (id, j) (if b then db.active_task_participant else m)
    pushed true db m j = refl
    pushed false db m j = refl

stored_all :
    (id : ℕ) (xs : Map Bytes ℕ) (db db' : Database)
    → insert_rows (insert_active_participant id) xs db ≡ ok db'
    → (j : Bytes)
    → get (id, j) db'.active_task_participant
      ≡ earlier (get (id, j) db.active_task_participant) (get j xs)
unfolding get
stored_all id [] db db' h j =
    ground (arith, ap (λ (x : Database). get (id, j) x.active_task_participant) (ok_inj h))
stored_all id ((d, n) ∷ xs) db db' h j =
    let (d1, one, rest) = and_then-ok (insert_active_participant id (d, n) db) _ db' h in
    ground (arith, stored_one id d n db d1 one j, stored_all id xs d1 db' rest j)

set_all : (r : Outcome Database) (db db' : Database) → perform r db ≡ (ok tt, db') → r ≡ ok db'
set_all (ok d) db db' h = ap (λ (x : Outcome (Unit {0}) × Database). ok x.1) h
set_all (err e) db db' h = absurd (cc)
set_all panic db db' h = absurd (cc)

-- The first stored choice of active shares stays: when storing a choice succeeds, reading it back
-- succeeds, and gives for each device the number that was stored for it before, if there was one,
-- and else the number of the new choice, so a choice that meets no earlier one is read back as it
-- is, and one that meets an earlier one is mixed with it.
pub first_choice_stays :
    (id : ℕ) (chosen : Map Bytes ℕ) (db db' : Database) (d : Bytes)
    → set_task_active_shares id chosen db ≡ (ok tt, db')
    → (r : Map Bytes ℕ) × (get_task_active_shares id db' ≡ (ok r, db'))
      × (get d r ≡ earlier (get (id, d) db.active_task_participant) (get d chosen))
unfolding set_task_active_shares get_task_active_shares
first_choice_stays id chosen db db' d done = (
  select id db'.active_task_participant,
  refl,
  get-select id d db'.active_task_participant
      ∙ stored_all id chosen db db'
          (set_all (insert_rows (insert_active_participant id) chosen db) db db' done) d,
)
