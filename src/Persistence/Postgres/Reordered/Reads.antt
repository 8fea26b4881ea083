-- ===== src/Persistence/Postgres/Reordered/Reads.antt =====
-- What the queries of persistence/postgres_repository read of a task when the rows come in another
-- order.
use mathlib.Core.List.{Permᴰ}
use meesign_server.Base.{
  ℕ, ◌≡◌, refl, List, [], ◌∷◌, map, Bytes, arith, nat_eq, bytes_eq, pair_eq, ap, ◌∙◌, subst, Eq,
  inl, inr, leb, sort_by, nat_beq_iff, Option-cases,
}
use meesign_server.Base.Exec.{ok}
use meesign_server.Base.Int.{ℤ}
use meesign_server.Base.Map.{Map, get}
use meesign_server.Base.Reorder.{get-Perm, Perm-map, Perm-each}
use meesign_server.Persistence.Models.{Participant}
use meesign_server.Persistence.Postgres.{select, Database, TaskParticipantRow}
use meesign_server.Persistence.Postgres.Consistent.{IsConsistent}
use meesign_server.Persistence.Postgres.Devices.{join_tasks, get_tasks_participants}
use meesign_server.Persistence.Postgres.FreshReads.{sort_same}
use meesign_server.Persistence.Postgres.Reordered.{Reordered}
use meesign_server.Persistence.Postgres.Rows.{select-IsMap, map_values-IsMap}
use meesign_server.Persistence.Postgres.Tasks.{get_task_decisions, stored_vote}
use meesign_server.Tasks.Voting.{accepts_rejects}
use meesign_server.Tasks.Voting.Counts.{counts_agree, or_zero_vote}

module _ {J K V : Type 0} ⦃e : Eq J⦄ where
  pub select-Perm : (j : J) {m n : Map (J × K) V} → Permᴰ m n → Permᴰ (select j m) (select j n)
  unfolding select
  select-Perm j h = Perm-each (select j) (λ x xs. ground arith) h

join-Perm :
    (db : Database) (ids : List ℕ) {m n : Map (ℕ × Bytes) TaskParticipantRow}
    → Permᴰ m n
    → Permᴰ (join_tasks db ids m) (join_tasks db ids n)
unfolding join_tasks
join-Perm db ids h = Perm-each (join_tasks db ids) (λ x xs. ground arith) h

-- The join depends on what the other tables hold, not on the order of their rows.
join_congr :
    (db d : Database) (ids : List ℕ)
    → ((id : ℕ) → get id d.task ≡ get id db.task)
    → ((id : Bytes) → get id d.device ≡ get id db.device)
    → (rows : Map (ℕ × Bytes) TaskParticipantRow) → join_tasks d ids rows ≡ join_tasks db ids rows
unfolding join_tasks
join_congr db d ids tasks devices [] = refl
join_congr db d ids tasks devices (((id, e), p) ∷ rows) =
    let rest = join_congr db d ids tasks devices rows in
    elim (Option-cases (get e db.device)) [
      | inl gone ↦ ground (arith, tasks id, devices e ∙ gone, gone, rest)
      | inr (row, there) ↦ ground (arith, tasks id, devices e ∙ there, there, rest)
    ]

-- Participants that are read of one task.
join_one :
    (db : Database) (id : ℕ) (rows : Map (ℕ × Bytes) TaskParticipantRow)
    → join_tasks db (id ∷ []) rows
      ≡ map (λ q. (id, q)) (map (λ (x : ℕ × Participant). x.1) (join_tasks db (id ∷ []) rows))
unfolding join_tasks
join_one db id [] = refl
join_one db id (((i, e), p) ∷ rows) = ground (arith, nat_beq_iff i id, join_one db id rows)

untagged :
    (id : ℕ) (ps : List Participant)
    → map (λ (x : ℕ × Participant). x.1) (map (λ q. (id, q)) ps) ≡ ps
untagged id [] = refl
untagged id (p ∷ ps) = ap (λ qs. p ∷ qs) (untagged id ps)

module _ (db d : Database) (id : ℕ) (r : Reordered db d) (c : IsConsistent db) where
  -- The participants of a task are read in some order.
  pub participants_read :
      (ps : List Participant)
      → join_tasks db (id ∷ []) db.task_participant ≡ map (λ q. (id, q)) ps
      → (qs : List Participant) × Permᴰ ps qs
        × (get_tasks_participants (id ∷ []) d ≡ (ok (map (λ q. (id, q)) qs), d))
  unfolding get_tasks_participants
  participants_read ps here =
      let read = join_tasks d (id ∷ []) d.task_participant in
      let qs = map (λ (x : ℕ × Participant). x.1) read in
      let same : join_tasks d (id ∷ []) db.task_participant ≡ map (λ q. (id, q)) ps =
        join_congr db d (id ∷ []) (get-Perm r.task c.task_keys).1
          (get-Perm r.device c.device_keys).1 db.task_participant
        ∙ here in
      let reordered : Permᴰ (map (λ q. (id, q)) ps) read =
        subst (λ x. Permᴰ x read) same (join-Perm d (id ∷ []) r.task_participant) in
      (
        qs,
        subst (λ x. Permᴰ x qs) (untagged id ps)
            (Perm-map (λ (x : ℕ × Participant). x.1) reordered),
        ap (λ x. (ok x, d))
            (ap (sort_by (λ (a b : ℕ × Participant). leb a.0 b.0))
                (join_one d id d.task_participant)
              ∙ sort_same id qs),
      )

  -- The votes on a task are read in some order, and counted alike.
  pub votes_read :
      (votes : Map Bytes ℤ)
      → get_task_decisions id db ≡ (ok votes, db)
      → (read : Map Bytes ℤ) × (get_task_decisions id d ≡ (ok read, d))
        × (accepts_rejects read ≡ accepts_rejects votes)
  unfolding get_task_decisions
  votes_read votes here =
      let vote : Bytes × TaskParticipantRow → Bytes × ℤ = λ p. (p.0, stored_vote p.1) in
      let old = map vote (select id db.task_participant) in
      let old_keys = map_values-IsMap stored_vote _ (select-IsMap id _ c.participant_keys) in
      let (new_keys, same) =
        get-Perm (Perm-map vote (select-Perm id r.task_participant)) old_keys in
      (
        map vote (select id d.task_participant),
        refl,
        counts_agree _ old new_keys old_keys (λ e. ap or_zero_vote (same e))
            ∙ ap accepts_rejects (cc),
      )
