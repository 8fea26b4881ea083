-- ===== src/Persistence/Postgres/Statements.antt =====
-- The statements of persistence/postgres_repository end in an error or keep the constraints.
use meesign_server.Base.{
  ◌+◌, ltb, inr, inl, Bool-cases, ℕ, nat_eq, pair_eq, bytes_eq, refl, none, is_some, ◌≡◌, Bool,
  true, false, Option, some, Bytes, arith, ◌&&◌, not,
}
use meesign_server.Base.Map.{get, contains_key}
use meesign_server.Persistence.Models.{TaskResultRow, Verdict, new_task_result, Device, IsChecked}
use meesign_server.Persistence.Postgres.{
  references_group, meets_check, changed_result, upsert_result, insert_active_participant,
  insert_task_participant, insert_task, is_positive_i32, ok, require, insert_group,
  insert_group_participant, insert_device, GroupRow, TaskRow, i32_limit, Database,
}
use meesign_server.Persistence.Postgres.Consistent.{After, require-After, Leaves, IsConsistent}
use meesign_server.Persistence.Postgres.Kept.{
  with_device, with_group, with_group_participant, with_task, with_participant, with_active,
  with_result, updated_task,
}
use meesign_server.Persistence.Postgres.Tasks.{incremented, increment_attempts}

and_true : (a b : Bool) → (a && b) ≡ true → (a ≡ true) × (b ≡ true)
and_true true true h = (refl, refl)
and_true true false h = cc
and_true false b h = cc

not-true : (a : Bool) → not a ≡ true → a ≡ false
not-true true h = cc
not-true false h = refl

absent_key : {A : Type 0} (o : Option A) → not (is_some o) ≡ true → o ≡ none
absent_key none h = refl
absent_key (some a) h = cc

-- Each statement keeps the constraints.
pub insert_device-Leaves : (d : Device) → Leaves (insert_device d)
unfolding insert_device
insert_device-Leaves d db c =
    require-After (not (contains_key d.id db.device)) (ok _) (λ fresh. with_device db c d.id _)

pub insert_group-Leaves : (id : Bytes) (row : GroupRow) → Leaves (insert_group id row)
unfolding insert_group
insert_group-Leaves id row db c =
    require-After (not (contains_key id db.groups)) (require (is_positive_i32 row.threshold) (ok _))
      (λ fresh. require-After (is_positive_i32 row.threshold) (ok _) (λ h. with_group db c id row))

pub insert_group_participant-Leaves :
    (id : Bytes) (p : Bytes × ℕ) → Leaves (insert_group_participant id p)
unfolding insert_group_participant
insert_group_participant-Leaves id (d, shares) db c =
    require-After (not (contains_key (id, d) db.group_participant)) _ λ fresh.
      require-After (contains_key id db.groups && contains_key d db.device) _ λ known.
        require-After (is_positive_i32 shares) (ok _) λ positive.
          with_group_participant db c id d shares (and_true _ _ known).0 (and_true _ _ known).1

pub insert_task-Leaves :
    (id : ℕ) (row : TaskRow) → row.attempt_count ≡ 0 → Leaves (insert_task id row)
unfolding insert_task
insert_task-Leaves id row new db c = require-After (not (contains_key id db.task)) _ λ fresh.
    require-After (is_positive_i32 row.threshold && references_group row.group_id db) (ok _) λ h.
      let (positive, known) =
        and_true (is_positive_i32 row.threshold) (references_group row.group_id db) h in
      with_task db c id row (λ g e. ground arith) (ground arith)

pub insert_task_participant-Leaves :
    (id : ℕ) (p : Bytes × ℕ) → Leaves (insert_task_participant id p)
unfolding insert_task_participant
insert_task_participant-Leaves id (d, shares) db c =
    require-After (not (contains_key (id, d) db.task_participant)) _ λ fresh.
      require-After (contains_key id db.task && contains_key d db.device) _ λ known.
        require-After (is_positive_i32 shares) (ok _) λ positive.
          with_participant db c id d _ (and_true _ _ known).0 (and_true _ _ known).1 (ground arith)

pub insert_active_participant-Leaves :
    (id : ℕ) (p : Bytes × ℕ) → Leaves (insert_active_participant id p)
unfolding insert_active_participant
insert_active_participant-Leaves id (d, shares) db c =
    require-After (is_positive_i32 shares) _ λ positive.
      elim (Bool-cases (contains_key (id, d) db.active_task_participant)) [
        | inl there ↦ rw there c
        | inr fresh ↦ rw fresh (
            require-After (contains_key (id, d) db.task_participant) (ok _)
              λ known. with_active db c id d shares known)
      ]

-- The test of the constraint is the constraint.
meets_check-IsChecked : (r : TaskResultRow) → meets_check r ≡ true → IsChecked r
unfolding meets_check
meets_check-IsChecked r h = ground arith

changed_id :
    (row : TaskResultRow) (o : Option TaskResultRow) → (changed_result row o).task_id ≡ row.task_id
unfolding changed_result
changed_id row none = refl
changed_id row (some old) = refl

pub set_task_result-Leaves : (id : ℕ) (v : Verdict) → Leaves (upsert_result (new_task_result v id))
unfolding upsert_result
set_task_result-Leaves id v db c =
    let row = new_task_result v id in
    let stored = changed_result row (get row.task_id db.task_result) in
    require-After (contains_key row.task_id db.task) _ λ known.
      require-After (meets_check stored) (ok _) λ checked.
        with_result db c row.task_id stored known
          (meets_check-IsChecked stored checked, changed_id row _)

incremented-After :
    (id : ℕ) (db : Database) (o : Option TaskRow)
    → IsConsistent db
    → get id db.task ≡ o
    → After (incremented id db o)
unfolding incremented
incremented-After id db none c e = tt
incremented-After id db (some row) c e =
    require-After (ltb (row.attempt_count + 1) i32_limit) (ok _) λ small.
      updated_task db c id _ (λ r. refl) (λ r found. ground (arith, c.tasks_checked id r found))

pub increment_attempts-Leaves : (id : ℕ) → Leaves (increment_attempts id)
unfolding increment_attempts
increment_attempts-Leaves id db c = incremented-After id db (get id db.task) c refl
