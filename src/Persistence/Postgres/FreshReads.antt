-- ===== src/Persistence/Postgres/FreshReads.antt =====
-- What the queries of persistence/postgres_repository read of a new task.
use meesign_server.Base.{
  some, leb, sort_by, sorted_insert, bytes_beq_iff, Bool-cases, nat_beq_iff, nat_beq, ℕ, ◌≡◌, refl,
  ◌∙◌, ap, true, false, none, List, [], ◌∷◌, ◌++◌, map, Bytes, arith, nat_eq, bytes_eq, pair_eq,
  inl, inr, Option-cases,
}
use meesign_server.Base.All.{All}
use meesign_server.Base.Exec.{ok}
use meesign_server.Base.Int.{ℤ}
use meesign_server.Base.Map.{values, Map, get, contains_key}
use meesign_server.Persistence.Models.{Participant}
use meesign_server.Persistence.Postgres.{select, Database, TaskParticipantRow}
use meesign_server.Persistence.Postgres.Consistent.{IsConsistent}
use meesign_server.Persistence.Postgres.Created.{new_row, with_rows}
use meesign_server.Persistence.Postgres.Devices.{device_of, join_tasks}
use meesign_server.Persistence.Postgres.Tasks.{get_task_decisions, stored_vote}
use meesign_server.Tasks.Voting.{accepts_rejects, count_vote, count_votes}

-- No row of the table is of the task.
abbrev pub HasNone : ℕ → Map (ℕ × Bytes) TaskParticipantRow → Type 0
HasNone id m = (d : Bytes) → get (id, d) m ≡ none

HasNone-tail :
    (id i : ℕ) (d : Bytes) (p : TaskParticipantRow) (m : Map (ℕ × Bytes) TaskParticipantRow)
    → HasNone id (((i, d), p) ∷ m)
    → (nat_beq i id ≡ false) × HasNone id m
unfolding get
HasNone-tail id i d p m h = (
  elim (Bool-cases (nat_beq i id)) [
    | inl same ↦ absurd (ground (arith, h d, nat_beq_iff i id, bytes_beq_iff d d))
    | inr other ↦ other
  ],
  λ c. elim (Bool-cases (nat_beq i id)) [
    | inl same ↦ absurd (ground (arith, h d, nat_beq_iff i id, bytes_beq_iff d d))
    | inr other ↦ ground (arith, h c)
  ],
)

select-HasNone :
    (id : ℕ) (m new : Map (ℕ × Bytes) TaskParticipantRow)
    → HasNone id m
    → select id (m ++ new) ≡ select id new
unfolding select
select-HasNone id [] new h = refl
select-HasNone id (((i, d), p) ∷ m) new h =
    let (other, rest) = HasNone-tail id i d p m h in
    ground (arith, other, select-HasNone id m new rest)

join-HasNone :
    (db : Database) (id : ℕ) (m new : Map (ℕ × Bytes) TaskParticipantRow)
    → HasNone id m
    → join_tasks db (id ∷ []) (m ++ new) ≡ join_tasks db (id ∷ []) new
unfolding join_tasks
join-HasNone db id [] new h = refl
join-HasNone db id (((i, d), p) ∷ m) new h =
    let (other, rest) = HasNone-tail id i d p m h in
    ground (arith, other, nat_beq_iff i id, nat_beq_iff id i, join-HasNone db id m new rest)

-- The device of a participant is in the database as it is.
abbrev pub IsStored : Database → Participant → Type 0
IsStored db p =
    get p.device.id db.device
    ≡ some
        (record { name = p.device.name; kind = p.device.kind; certificate = p.device.certificate })

abbrev pub id_shares : Participant → Bytes × ℕ
id_shares p = (p.device.id, p.shares)

join_new :
    (db : Database) (id : ℕ) (ps : List Participant)
    → contains_key id db.task ≡ true
    → All (IsStored db) ps
    → join_tasks db (id ∷ []) (map (new_row id) (map id_shares ps)) ≡ map (λ p. (id, p)) ps
unfolding join_tasks device_of
join_new db id [] known stored = refl
join_new db id (p ∷ ps) known (here, stored) =
    rw (here, known, (nat_beq_iff id id).1 refl, join_new db id ps known stored) refl

insert_least :
    (id : ℕ) (p : Participant) (ps : List Participant)
    → sorted_insert (λ (a b : ℕ × Participant). leb a.0 b.0) (id, p) (map (λ q. (id, q)) ps)
      ≡ (id, p) ∷ map (λ q. (id, q)) ps
unfolding sorted_insert
insert_least id p [] = refl
insert_least id p (q ∷ qs) = ground arith

-- Sorting by the task leaves the rows of one task as they are.
pub sort_same :
    (id : ℕ) (ps : List Participant)
    → sort_by (λ (a b : ℕ × Participant). leb a.0 b.0) (map (λ q. (id, q)) ps)
      ≡ map (λ q. (id, q)) ps
unfolding sort_by
sort_same id [] = refl
sort_same id (p ∷ ps) = rw (sort_same id ps) (insert_least id p ps)

-- The join gives the participants of a new task.
pub join_fresh :
    (db : Database) (id : ℕ) (ps : List Participant)
    → contains_key id db.task ≡ true
    → HasNone id db.task_participant
    → All (IsStored db) ps
    → let db' = with_rows id (map id_shares ps) db in
      join_tasks db' (id ∷ []) db'.task_participant ≡ map (λ p. (id, p)) ps
join_fresh db id ps known none_yet stored =
    let db' = with_rows id (map id_shares ps) db in
    join-HasNone db' id db.task_participant _ none_yet ∙ join_new db' id ps known stored

select_new :
    (id : ℕ) (xs : List (Bytes × ℕ))
    → select id (map (new_row id) xs) ≡ map (λ x. (x.0, (new_row id x).1)) xs
unfolding select
select_new id [] = refl
select_new id (x ∷ xs) = rw ((nat_beq_iff id id).1 refl, select_new id xs) refl

no_counts :
    (id : ℕ) (xs : List (Bytes × ℕ))
    → count_votes
        (values (
          map
            (λ (p : Bytes × TaskParticipantRow). (p.0, stored_vote p.1))
            (map (λ x. (x.0, (new_row id x).1)) xs)))
        (0, 0)
      ≡ (0, 0)
unfolding count_votes count_vote stored_vote
no_counts id [] = refl
no_counts id (x ∷ xs) = no_counts id xs

-- Nobody has voted on a new task.
pub read_votes :
    (db : Database) (id : ℕ) (xs : List (Bytes × ℕ))
    → HasNone id db.task_participant
    → (r : Map Bytes ℤ) × ((get_task_decisions id (with_rows id xs db))
        ≡ (ok r, with_rows id xs db))
      × (accepts_rejects r ≡ (0, 0))
unfolding get_task_decisions accepts_rejects
read_votes db id xs none_yet = (
  _,
  refl,
  ap
        (λ m.
          count_votes (values (map (λ (p : Bytes × TaskParticipantRow). (p.0, stored_vote p.1)) m))
            (0, 0))
        (select-HasNone id db.task_participant (map (new_row id) xs) none_yet ∙ select_new id xs)
      ∙ no_counts id xs,
)

pub none_yet :
    (id : ℕ) (db : Database)
    → IsConsistent db
    → get id db.task ≡ none
    → HasNone id db.task_participant
none_yet id db c fresh d = elim (Option-cases (get (id, d) db.task_participant)) [
  | inl gone ↦ gone
  | inr (p, there) ↦ absurd (ground (arith, there, fresh, c.participants_known id d))
]
