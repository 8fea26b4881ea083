-- ===== src/Persistence/Postgres/Created.antt =====
-- The rows of a new task in persistence/postgres_repository/task.rs, as the queries read them.
use meesign_server.Base.{
  ◌≤◌, ◌&&◌, ℕ, ◌≡◌, refl, ◌∙◌, ap, sym, Bool, true, false, none, List, [], ◌∷◌, ◌++◌, map, Bytes,
  arith, nat_eq, bytes_eq, pair_eq, not, inl, inr, Eq, Option-cases,
}
use meesign_server.Base.Exec.{◌>>◌, Exec, panic, err, and_then, Outcome, ok}
use meesign_server.Base.Map.{Map, get, insert, contains_key}
use meesign_server.Persistence.Models.{TaskModel}
use meesign_server.Persistence.Postgres.{
  references_group, perform, TaskRow, insert_task, insert_rows, Database, TaskParticipantRow,
  require, insert_task_participant, is_positive_i32,
}
use meesign_server.Persistence.Postgres.Tasks.{get_task, read_back, insert_task_with}

module _ {K V : Type 0} ⦃e : Eq K⦄ where
  insert_absent : (k : K) (v : V) (m : Map K V) → get k m ≡ none → insert k v m ≡ m ++ ((k, v) ∷ [])
  unfolding get insert
  insert_absent k v [] h = refl
  insert_absent k v ((j, w) ∷ m) h = ground (arith, insert_absent k v m)

-- The row of a participant who has not voted.
abbrev pub new_row : ℕ → Bytes × ℕ → (ℕ × Bytes) × TaskParticipantRow
new_row id x = ((id, x.0), record { shares = x.1; decision = none; acknowledgment = none })

abbrev pub with_rows : ℕ → List (Bytes × ℕ) → Database → Database
with_rows id xs db = record db { task_participant = db.task_participant ++ map (new_row id) xs }

pub required :
    {A : Type 0} (b : Bool) (r : Outcome A) (a : A) → require b r ≡ ok a → (b ≡ true) × (r ≡ ok a)
required true r a h = (refl, h)
required false r a h = absurd (cc)

absent :
    {K V : Type 0} ⦃e : Eq K⦄ (k : K) (m : Map K V) → not (contains_key k m) ≡ true → get k m ≡ none
absent k m h = elim (Option-cases (get k m)) [
  | inl gone ↦ gone
  | inr (v, there) ↦ absurd (ground (arith, there))
]

pub ok_inj : {a b : Database} → ok a ≡ ok b → a ≡ b
ok_inj p = cc

inserted_row :
    (id : ℕ) (x : Bytes × ℕ) (db db' : Database)
    → insert_task_participant id x db ≡ ok db'
    → db' ≡ with_rows id (x ∷ []) db
unfolding insert_task_participant
inserted_row id (d, shares) db db' h =
    let (fresh, h1) = required (not (contains_key (id, d) db.task_participant)) _ db' h in
    let (known, h2) = required _ _ db' h1 in
    let (positive, h3) = required (is_positive_i32 shares) _ db' h2 in
    ok_inj (sym h3)
    ∙ ap (λ m. record db { task_participant = m })
        (insert_absent (id, d) _ db.task_participant (absent (id, d) db.task_participant fresh))

pub and_then-ok :
    {A B : Type 0} (r : Outcome A) (f : A → Outcome B) (b : B)
    → and_then r f ≡ ok b
    → (a : A) × (r ≡ ok a) × (f a ≡ ok b)
and_then-ok (ok a) f b h = (a, refl, h)
and_then-ok (err e) f b h = absurd (cc)
and_then-ok panic f b h = absurd (cc)

append_one :
    {A : Type 0} (xs : List A) (y : A) (ys : List A) → (xs ++ (y ∷ [])) ++ ys ≡ xs ++ (y ∷ ys)
append_one [] y ys = refl
append_one (x ∷ xs) y ys = ap (λ l. x ∷ l) (append_one xs y ys)

append_nil : {A : Type 0} (xs : List A) → xs ≡ xs ++ []
append_nil [] = refl
append_nil (x ∷ xs) = ap (λ l. x ∷ l) (append_nil xs)

pub inserted_rows :
    (id : ℕ) (xs : List (Bytes × ℕ)) (db db' : Database)
    → insert_rows (insert_task_participant id) xs db ≡ ok db'
    → db' ≡ with_rows id xs db
inserted_rows id [] db db' h =
    let same : db ≡ db' = cc in
    sym same ∙ ap (λ m. record db { task_participant = m }) (append_nil db.task_participant)
inserted_rows id (x ∷ xs) db db' h =
    let (d1, one, rest) = and_then-ok (insert_task_participant id x db) _ db' h in
    inserted_rows id xs d1 db' rest
    ∙ ap (with_rows id xs) (inserted_row id x db d1 one)
    ∙ ap (λ m. record db { task_participant = m })
        (append_one db.task_participant (new_row id x) (map (new_row id) xs))

performed_then :
    {A : Type 0} (r : Outcome Database) (m : Exec Database A) (db db' : Database) (a : A)
    → (perform r >> m) db ≡ (ok a, db')
    → (d : Database) × (r ≡ ok d) × (m d ≡ (ok a, db'))
performed_then (ok d) m db db' a h = (d, refl, h)
performed_then (err e) m db db' a h = absurd (cc)
performed_then panic m db db' a h = absurd (cc)

abbrev pub with_task : ℕ → TaskRow → Database → Database
with_task id row db = record db { task = insert id row db.task }

inserted_task :
    (id : ℕ) (row : TaskRow) (db db' : Database)
    → insert_task id row db ≡ ok db'
    → (get id db.task ≡ none) × (1 ≤ row.threshold) × (db' ≡ with_task id row db)
unfolding insert_task
inserted_task id row db db' h =
    let (fresh, h1) = required (not (contains_key id db.task)) _ db' h in
    let (checked, h2) =
      required (is_positive_i32 row.threshold && references_group row.group_id db) _ db' h1 in
    (absent id db.task fresh, ground (arith, checked), ok_inj (sym h2))

-- The rows that a call which creates a task leaves.
pub created_rows :
    (id : ℕ) (row : TaskRow) (xs : List (Bytes × ℕ)) (db db' : Database) (m : TaskModel)
    → insert_task_with id row xs db ≡ (ok m, db')
    → (get id db.task ≡ none) × (1 ≤ row.threshold) × (db' ≡ with_rows id xs (with_task id row db))
unfolding insert_task_with read_back get_task
created_rows id row xs db db' m h =
    let (d1, one, h1) = performed_then (insert_task id row db) _ db db' m h in
    let (d2, two, h2) =
      performed_then (insert_rows (insert_task_participant id) xs d1) _ d1 db' m h1 in
    let (fresh, least, same1) = inserted_task id row db d1 one in
    let same2 = inserted_rows id xs d1 d2 two in
    let last : d2 ≡ db' = ap (λ p. p.1) h2 in
    (fresh, least, sym last ∙ same2 ∙ ap (with_rows id xs) same1)
