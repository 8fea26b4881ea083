-- ===== src/Persistence/Postgres/Queries.antt =====
-- What the queries of persistence/postgres_repository/task.rs select.
use mathlib.Core.Option.{some_inj}
use meesign_server.Base.{
  sym, subst, ◌∙◌, ℕ, ◌≤◌, ◌≡◌, refl, ◌↔◌, ◌⊎◌, inl, inr, Bool, true, false, Option, none, some,
  List, [], ◌∷◌, arith, nat_eq, nat_beq, nat_beq_iff, any, keep, leb, any-sort, Bool-cases,
  Option-cases, ◌||◌, sort,
}
use meesign_server.Base.Exec.{ok}
use meesign_server.Base.Map.{Map, get, keys, IsMap}
use meesign_server.Persistence.Postgres.{Database, TaskRow}
use meesign_server.Persistence.Postgres.Consistent.{IsConsistent}
use meesign_server.Persistence.Postgres.Tasks.{get_restart_candidates, is_candidate, is_true}

-- Whether the entry of a key, if there is one, passes a test.
abbrev pub entry_passes : {V : Type 0} → (ℕ × V → Bool) → ℕ → Option V → Bool
entry_passes q id none = false
entry_passes q id (some v) = q (id, v)

module _ {V : Type 0} where
  -- A table has a key among the rows that a test selects if the row of the key passes it.
  pub any-keep_key :
      (q : ℕ × V → Bool) (id : ℕ) (m : Map ℕ V)
      → IsMap m
      → any (nat_beq id) (keys (keep q m)) ≡ entry_passes q id (get id m)
  unfolding get
  any-keep_key q id [] h = refl
  any-keep_key q id ((j, v) ∷ m) h = elim (Bool-cases (nat_beq j id)) [
    | inl same ↦
        let j_id = (nat_beq_iff j id).0 same in
        elim (Bool-cases (q (j, v))) [
          | inl passes ↦ rw (same, passes) (ground (arith, j_id, passes))
          | inr fails ↦ rw (same, fails) (ground (arith, j_id, fails, h.0, any-keep_key q id m h.1))
        ]
    | inr other ↦ elim (Bool-cases (q (j, v))) [
      | inl passes ↦ rw (other, passes) (ground (arith, any-keep_key q id m h.1))
      | inr fails ↦ rw (other, fails) (ground (arith, any-keep_key q id m h.1))
    ]
  ]

  -- The row of one key.
  abbrev pub entry_of : ℕ → Option V → List (ℕ × V)
  entry_of id none = []
  entry_of id (some v) = (id, v) ∷ []

  pub keep_key :
      (id : ℕ) (m : Map ℕ V)
      → IsMap m
      → keep (λ p. any (nat_beq p.0) (id ∷ [])) m ≡ entry_of id (get id m)
  unfolding get
  keep_key id [] h = refl
  keep_key id ((j, v) ∷ m) h = ground (arith, nat_beq_iff j id, keep_key id m h.1, h.0)

-- A started task: its certificates are out, or it is past the round 0.
abbrev pub IsStarted : TaskRow → Type 0
IsStarted row = (row.group_certificates_sent ≡ some true) ⊎ (1 ≤ row.protocol_round)

IsStarted-iff :
    (row : TaskRow)
    → ((is_true row.group_certificates_sent || leb 1 row.protocol_round) ≡ true) ↔ IsStarted row
IsStarted-iff row = (λ h. ground arith, λ h. ground arith)

-- In a consistent database the query for tasks to restart succeeds, changes nothing, and returns
-- the identifier of a task exactly when the task has a row, has no result, and is started: its
-- group certificates are sent, or its round is 1 or more.
pub candidates_exact :
    (db : Database) (id : ℕ)
    → IsConsistent db
    → (ids : List ℕ) × (get_restart_candidates db ≡ (ok ids, db))
      × ((any (nat_beq id) ids ≡ true) ↔ (
          (row : TaskRow) × (get id db.task ≡ some row)
          × (get id db.task_result ≡ none)
          × IsStarted row))
unfolding get_restart_candidates is_candidate
candidates_exact db id c = (
  sort (keys (keep (is_candidate db) db.task)),
  refl,
  elim (Option-cases (get id db.task)) [
    | inl absent ↦
        (λ h. absurd (ground (arith, listed, absent)), λ w. absurd (ground (arith, w.1, absent)))
    | inr (row, found) ↦ (
      λ h. (
        row,
        found,
        ground (arith, listed, found),
        (IsStarted-iff row).0 (ground (arith, listed, found)),
      ),
      λ w.
          let row_w : row ≡ w.0 = some_inj.0 (sym found ∙ w.1) in
          ground
            (arith, listed, found, w.2, (IsStarted-iff row).1 (subst IsStarted (sym row_w) w.3)),
    )
  ],
)
  where
    listed :
        any (nat_beq id) (sort (keys (keep (is_candidate db) db.task)))
        ≡ entry_passes (is_candidate db) id (get id db.task)
    listed = any-sort (nat_beq id) _ ∙ any-keep_key (is_candidate db) id db.task c.task_keys
