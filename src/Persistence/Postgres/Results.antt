-- ===== src/Persistence/Postgres/Results.antt =====
-- Results of tasks, as persistence/postgres_repository/task.rs stores and reads them.
use mathlib.Core.Option.{or_else}
use meesign_server.Base.{
  not, subst, ℕ, ◌≡◌, refl, false, some, List, [], ◌∷◌, arith, nat_eq, nat_beq, any, Bool-cases,
  inl, inr, Option, none, Bool, true, ◌⊎◌,
}
use meesign_server.Base.Exec.{ok}
use meesign_server.Base.Map.{get, insert, get_self-insert}
use meesign_server.Persistence.Models.{
  failed, try_into_result_new, succeeded, TaskResultRow, Verdict, new_task_result, try_into_result,
  IsChecked,
}
use meesign_server.Persistence.Postgres.{
  failure, changed_result, meets_check, upsert_result, Database, TaskRow,
}
use meesign_server.Persistence.Postgres.Consistent.{IsConsistent}
use meesign_server.Persistence.Postgres.Invariant.{result-Keeps}
use meesign_server.Persistence.Postgres.Queries.{keep_key, candidates_exact}
use meesign_server.Persistence.Postgres.Tasks.{
  get_restart_candidates, set_task_result, get_task_models, model_of,
}

-- The row that hydration reads of one task.
pub read_model :
    (db : Database) (id : ℕ) (row : TaskRow)
    → IsConsistent db
    → get id db.task ≡ some row
    → get_task_models (id ∷ []) db ≡ (ok (model_of id row (get id db.task_result) ∷ []), db)
unfolding get_task_models
read_model db id row c found = rw (keep_key id db.task c.task_keys, found) refl

-- Whether a verdict is of the kind of the earlier one, where there is one.
abbrev pub agrees : Option TaskResultRow → Verdict → Bool
agrees none v = true
agrees (some r) (succeeded d) = r.is_successful
agrees (some r) (failed e) = not r.is_successful

-- Over an earlier verdict of the same kind, the row of the new one is the whole row.
changed_agrees :
    (id : ℕ) (v : Verdict) (o : Option TaskResultRow)
    → ((r : TaskResultRow) → o ≡ some r → IsChecked r)
    → agrees o v ≡ true
    → (changed_result (new_task_result v id) o ≡ new_task_result v id)
      × (meets_check (new_task_result v id) ≡ true)
unfolding changed_result new_task_result meets_check or_else
changed_agrees id (succeeded d) none checked same = (refl, refl)
changed_agrees id (failed e) none checked same = (refl, refl)
changed_agrees id (succeeded d) (some r) checked same = elim (checked r refl) [
  | inl (good, there, absent) ↦ (rw absent refl, refl)
  | inr (bad, absent, there) ↦ absurd (cc)
]
changed_agrees id (failed e) (some r) checked same = elim (checked r refl) [
  | inl (good, there, absent) ↦ absurd (ground arith)
  | inr (bad, absent, there) ↦ (rw absent refl, refl)
]

-- Over one of the other kind, both columns are there, and the row is refused.
changed_differs :
    (id : ℕ) (v : Verdict) (o : Option TaskResultRow)
    → ((r : TaskResultRow) → o ≡ some r → IsChecked r)
    → agrees o v ≡ false
    → meets_check (changed_result (new_task_result v id) o) ≡ false
unfolding changed_result new_task_result meets_check or_else
changed_differs id v none checked differs = absurd (cc)
changed_differs id (succeeded d) (some r) checked differs = elim (checked r refl) [
  | inl (good, there, absent) ↦ absurd (cc)
  | inr (bad, absent, there) ↦ rw there refl
]
changed_differs id (failed e) (some r) checked differs = elim (checked r refl) [
  | inl (good, there, absent) ↦ rw there refl
  | inr (bad, absent, there) ↦ absurd (ground arith)
]

new_task_result-id : (v : Verdict) (id : ℕ) → (new_task_result v id).task_id ≡ id
unfolding new_task_result
new_task_result-id (succeeded d) id = refl
new_task_result-id (failed e) id = refl

module _ (db : Database) (id : ℕ) (row : TaskRow) where
  result_set :
      (v : Verdict)
      → IsConsistent db
      → get id db.task ≡ some row
      → agrees (get id db.task_result) v ≡ true
      → set_task_result id v db
        ≡ (ok tt, record db { task_result = insert id (new_task_result v id) db.task_result })
  unfolding set_task_result upsert_result
  result_set v c found same =
      let (whole, passes) =
        changed_agrees id v (get id db.task_result) (λ r e. (c.results_checked id r e).0) same in
      rw (new_task_result-id v id, found, whole, passes) refl

  result_refused :
      (v : Verdict)
      → IsConsistent db
      → get id db.task ≡ some row
      → agrees (get id db.task_result) v ≡ false
      → set_task_result id v db ≡ (failure, db)
  unfolding set_task_result upsert_result
  result_refused v c found differs =
      let fails =
        changed_differs id v (get id db.task_result) (λ r e. (c.results_checked id r e).0)
          differs in
      rw (new_task_result-id v id, found, fails) refl

  result_read :
      (v : Verdict)
      → IsConsistent db
      → get id db.task ≡ some row
      → agrees (get id db.task_result) v ≡ true
      → let db' = (set_task_result id v db).1 in
        ((set_task_result id v db).0 ≡ ok tt)
        × ((r : TaskResultRow) × (get_task_models (id ∷ []) db'
              ≡ (ok (model_of id row (some r) ∷ []), db'))
            × (try_into_result r ≡ ok v))
        × ((ids : List ℕ) × (get_restart_candidates db' ≡ (ok ids, db'))
            × (any (nat_beq id) ids ≡ false))
  result_read v c found agreed =
      let db' = (set_task_result id v db).1 in
      let c' = result-Keeps id v db c in
      let same = result_set v c found agreed in
      let kept : get id db'.task ≡ some row = rw same found in
      let stored : get id db'.task_result ≡ some (new_task_result v id) =
        rw same (get_self-insert id (new_task_result v id) db.task_result) in
      let (ids, listed, iff) = candidates_exact db' id c' in
      (
        rw same refl,
        (
          new_task_result v id,
          subst (λ o. get_task_models (id ∷ []) db' ≡ (ok (model_of id row o ∷ []), db')) stored
              (read_model db' id row c' kept),
          try_into_result_new v id,
        ),
        (
          ids,
          listed,
          elim (Bool-cases (any (nat_beq id) ids)) [
            | inl there ↦ absurd (ground (arith, iff.0 there, stored))
            | inr gone ↦ gone
          ],
        ),
      )

  -- Storing a verdict, a result or a failure, on a task of a consistent database succeeds where
  -- the task has no earlier verdict or one of the same kind: the rows that hydration then reads
  -- for the task convert to just the new verdict, the other columns of the task unchanged, and
  -- the task is no candidate for a restart any more. Over an earlier verdict of the other kind it
  -- is an error, and the database stays as it was.
  pub result_ends :
      (v : Verdict)
      → IsConsistent db
      → get id db.task ≡ some row
      → let db' = (set_task_result id v db).1 in
        ((agrees (get id db.task_result) v ≡ true)
          × ((set_task_result id v db).0 ≡ ok tt)
          × ((r : TaskResultRow) × (get_task_models (id ∷ []) db'
                ≡ (ok (model_of id row (some r) ∷ []), db'))
              × (try_into_result r ≡ ok v))
          × ((ids : List ℕ) × (get_restart_candidates db' ≡ (ok ids, db'))
              × (any (nat_beq id) ids ≡ false)))
        ⊎ ((agrees (get id db.task_result) v ≡ false) × (set_task_result id v db ≡ (failure, db)))
  result_ends v c found = elim (Bool-cases (agrees (get id db.task_result) v)) [
    | inl same ↦ let (done, read, gone) = result_read v c found same in inl (same, done, read, gone)
    | inr differs ↦ inr (differs, result_refused v c found differs)
  ]
