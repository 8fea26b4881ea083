-- ===== src/Persistence/Postgres/Progress.antt =====
-- The round and the attempts of a task, as persistence/postgres_repository/task.rs keeps them.
use meesign_server.Base.{
  true, ltb, ℕ, ◌+◌, ◌<◌, ◌≡◌, refl, ap, subst, some, [], ◌∷◌, arith, nat_eq, nat_beq_iff,
}
use meesign_server.Base.Exec.{ok}
use meesign_server.Base.Int.{u16}
use meesign_server.Base.Map.{get}
use meesign_server.Persistence.Postgres.{Database, TaskRow, i32_limit, update_row}
use meesign_server.Persistence.Postgres.Consistent.{IsConsistent}
use meesign_server.Persistence.Postgres.Invariant.{round-Keeps, attempts-Keeps}
use meesign_server.Persistence.Postgres.Results.{read_model}
use meesign_server.Persistence.Postgres.Rows.{get-update_row}
use meesign_server.Persistence.Postgres.Tasks.{
  set_task_round, increment_task_attempt_count, get_task_models, model_of, increment_attempts,
  incremented, returning,
}

module _ (db : Database) (id : ℕ) (row : TaskRow) (found : get id db.task ≡ some row) where
  abbrev changed : (TaskRow → TaskRow) → Database
  changed f = record db { task = update_row id f db.task }

  changed-row : (f : TaskRow → TaskRow) → get id (changed f).task ≡ some (f row)
  changed-row f = ground (arith, get-update_row id id f db.task, nat_beq_iff id id, found)

  abbrev to_round : ℕ → TaskRow → TaskRow
  to_round n r = record r { protocol_round = n }

  abbrev next_attempt : TaskRow → TaskRow
  next_attempt r = record r { attempt_count = r.attempt_count + 1 }

  round_set : (n : ℕ) → n < 65536 → set_task_round id n db ≡ (ok n, changed (to_round n))
  unfolding set_task_round returning
  round_set n small =
      let same : u16 n ≡ n = omega (arith, small) in
      rw (changed-row (to_round n)) (ap (λ x. (ok x, changed (to_round n))) same)

  attempt_counted :
      row.attempt_count + 1 < i32_limit
      → increment_task_attempt_count id db ≡ (ok (row.attempt_count + 1), changed next_attempt)
  unfolding increment_task_attempt_count increment_attempts incremented returning
  attempt_counted small =
      let below : ltb (row.attempt_count + 1) i32_limit ≡ true = ground (arith, small) in
      rw (found, below, changed-row next_attempt) refl

  read_changed :
      (f : TaskRow → TaskRow) (db' : Database)
      → IsConsistent db'
      → db' ≡ changed f
      → get_task_models (id ∷ []) db' ≡ (ok (model_of id (f row) (get id db.task_result) ∷ []), db')
  read_changed f db' c same =
      let there : get id db'.task ≡ some (f row) = rw same (changed-row f) in
      subst (λ o. get_task_models (id ∷ []) db' ≡ (ok (model_of id (f row) o ∷ []), db'))
        (ap (λ (x : Database). get id x.task_result) same) (read_model db' id (f row) c there)

  -- The progress of a task that has a row in a consistent database is stored as it is, within the
  -- bounds of the columns: storing a round below 2^16 returns the round, and counting an attempt
  -- returns one attempt more while that is below 2^31, so neither cast loses anything, and the
  -- row that hydration then reads has the new round, or the new number of attempts, with all
  -- other columns and the result as before.
  pub progress_stored :
      (n : ℕ)
      → IsConsistent db
      → n < 65536
      → row.attempt_count + 1 < i32_limit
      → let db1 = (set_task_round id n db).1 in
        let db2 = (increment_task_attempt_count id db).1 in
        ((set_task_round id n db).0 ≡ ok n)
        × (get_task_models (id ∷ []) db1 ≡ (
          ok (model_of id (record row { protocol_round = n }) (get id db.task_result) ∷ []),
          db1,
        ))
        × ((increment_task_attempt_count id db).0 ≡ ok (row.attempt_count + 1))
        × (get_task_models (id ∷ []) db2 ≡ (
          ok (
              model_of id
                (record row { attempt_count = row.attempt_count + 1 })
                (get id db.task_result)
              ∷ []),
          db2,
        ))
  progress_stored n c small below =
      let set = round_set n small in
      let counted = attempt_counted below in
      (
        ap (λ p. p.0) set,
        read_changed (to_round n) _ (round-Keeps id n db c) (ap (λ p. p.1) set),
        ap (λ p. p.0) counted,
        read_changed next_attempt _ (attempts-Keeps id db c) (ap (λ p. p.1) counted),
      )
