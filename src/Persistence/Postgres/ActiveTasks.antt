-- ===== src/Persistence/Postgres/ActiveTasks.antt =====
-- The open tasks of a device, as persistence/postgres_repository/task.rs selects them.
use mathlib.Core.Option.{some_inj}
use meesign_server.Base.{
  sym, subst, ◌∙◌, any-sort, sort, List, Option-cases, ◌||◌, ◌↔◌, true, ◌≢◌, not, ◌⊎◌, ℕ, ◌≡◌, refl,
  inl, inr, Bool, false, Option, none, some, [], ◌∷◌, map, Bytes, arith, nat_eq, nat_beq,
  nat_beq_iff, bytes_eq, bytes_beq, bytes_beq_iff, pair_eq, any, keep, Bool-cases, ◌&&◌,
}
use meesign_server.Base.Map.{contains_key, Map, get, IsMap}
use meesign_server.Persistence.Postgres.{ok, TaskParticipantRow, Database}
use meesign_server.Persistence.Postgres.Consistent.{IsConsistent}
use meesign_server.Persistence.Postgres.Tasks.{
  is_active_row, get_active_device_tasks, is_unacknowledged,
}

abbrev row_passes : {V : Type 0} → (V → Bool) → Option V → Bool
row_passes r none = false
row_passes r (some v) = r v

module _ {V : Type 0} where
  -- A table of pairs has a first component among the rows of a second one that pass a test if the
  -- row of both passes it.
  any-keep_pair :
      (q : (ℕ × Bytes) × V → Bool) (r : ℕ → V → Bool) (id : ℕ) (d : Bytes) (m : Map (ℕ × Bytes) V)
      → ((i : ℕ) (j : Bytes) (v : V) → q ((i, j), v) ≡ (bytes_beq j d && r i v))
      → IsMap m
      → any (nat_beq id) (map (λ p. p.0.0) (keep q m)) ≡ row_passes (r id) (get (id, d) m)
  unfolding get
  any-keep_pair q r id d [] hq h = refl
  any-keep_pair q r id d (((i, j), v) ∷ m) hq h =
      elim (Bool-cases (nat_beq i id && bytes_beq j d)) [
        | inl same ↦ ground (
          arith,
          same,
          hq i j v,
          nat_beq_iff i id,
          nat_beq_iff id i,
          bytes_beq_iff j d,
          any-keep_pair q r id d m hq h.1,
          h.0,
        )
        | inr other ↦ ground (
          arith,
          other,
          hq i j v,
          nat_beq_iff i id,
          nat_beq_iff id i,
          any-keep_pair q r id d m hq h.1,
        )
      ]

-- The task has no result, or the device has not acknowledged it.
abbrev pub IsOpen : Database → ℕ → TaskParticipantRow → Type 0
IsOpen db id p = (get id db.task_result ≡ none) ⊎ (p.acknowledgment ≢ some true)

abbrev open_test : Database → ℕ → TaskParticipantRow → Bool
open_test db id p =
    contains_key id db.task
    && (not (contains_key id db.task_result) || is_unacknowledged p.acknowledgment)

IsOpen-iff :
    (db : Database) (id : ℕ) (p : TaskParticipantRow)
    → contains_key id db.task ≡ true
    → (open_test db id p ≡ true) ↔ IsOpen db id p
IsOpen-iff db id p known = (
  λ h. elim (Option-cases (get id db.task_result)) [
    | inl none_yet ↦ inl none_yet
    | inr (v, there) ↦ inr (λ done. absurd (ground (arith, h, there, done)))
  ],
  λ o. elim o [
    | inl none_yet ↦ ground (arith, known, none_yet)
    | inr undone ↦ ground (arith, known, unacknowledged p.acknowledgment undone)
  ],
)
  where
    unacknowledged : (a : Option Bool) → a ≢ some true → is_unacknowledged a ≡ true
    unacknowledged none h = refl
    unacknowledged (some true) h = absurd (h refl)
    unacknowledged (some false) h = refl

-- In a consistent database the query for the open tasks of a device succeeds, changes nothing,
-- and returns the identifier of a task exactly when the device is a participant of the task and
-- the task has no result or the device has not acknowledged it.
pub active_exact :
    (db : Database) (d : Bytes) (id : ℕ)
    → IsConsistent db
    → (ids : List ℕ) × (get_active_device_tasks d db ≡ (ok ids, db))
      × ((any (nat_beq id) ids ≡ true) ↔ (
          (p : TaskParticipantRow) × (get (id, d) db.task_participant ≡ some p) × IsOpen db id p))
unfolding get_active_device_tasks
active_exact db d id c = (
  sort (map (λ p. p.0.0) (keep (is_active_row db d) db.task_participant)),
  refl,
  elim (Option-cases (get (id, d) db.task_participant)) [
    | inl absent ↦
        (λ h. absurd (ground (arith, listed, absent)), λ w. absurd (ground (arith, w.1, absent)))
    | inr (p, found) ↦
        let known : contains_key id db.task ≡ true =
          (c.participants_known id d (ground (arith, found))).0 in
        (
          λ h. (p, found, (IsOpen-iff db id p known).0 (ground (arith, listed, found, h))),
          λ w.
              let p_w : p ≡ w.0 = some_inj.0 (sym found ∙ w.1) in
              ground (
                arith,
                listed,
                found,
                (IsOpen-iff db id p known).1 (subst (IsOpen db id) (sym p_w) w.2),
              ),
        )
  ],
)
  where
    listed :
        any (nat_beq id) (sort (map (λ p. p.0.0) (keep (is_active_row db d) db.task_participant)))
        ≡ row_passes (open_test db id) (get (id, d) db.task_participant)
    listed =
        any-sort (nat_beq id) _
        ∙ any-keep_pair (is_active_row db d) (open_test db) id d db.task_participant
            (λ i j v. unfold is_active_row in ground arith) c.participant_keys
