-- ===== src/TaskStore/StoredVotes.antt =====
-- The votes of cached_task_store.rs: those of a cached task of tasks/mod.rs and those that
-- persistence/postgres_repository/task.rs keeps.
use mathlib.Core.Option
use meesign_server.Base.{
  bytes_beq_iff, Option-cases, nat_beq_iff, ap, bytes_beq, ltb, if◌then◌else◌, ℕ, zero, suc, ◌-◌,
  ◌<◌, ◌%◌, ◌≡◌, refl, sym, ◌∙◌, Bool, true, false, some, map, Bytes, arith, bytes_eq, nat_eq,
  pair_eq, inl, inr, Bool-cases,
}
use meesign_server.Base.Exec.{ok}
use meesign_server.Base.Int.{ℤ, pos, negsuc, as_i8, neg_i8}
use meesign_server.Base.Map.{get-insert, insert-IsMap, insert, Map, get, IsMap}
use meesign_server.Persistence.Models.{Participant}
use meesign_server.Persistence.Postgres.{Database, TaskParticipantRow, select}
use meesign_server.Persistence.Postgres.Rows.{
  select-IsMap, map_values-IsMap, get-select, get-map_values, get-update_row, update_row-IsMap,
}
use meesign_server.Persistence.Postgres.Tasks.{get_task_decisions, set_task_decision, stored_vote}
use meesign_server.Tasks.Info.{DecisionUpdate}
use meesign_server.Tasks.Voting.{decide, VotingTask, participant_of, vote_of, accepts_rejects}
use meesign_server.Tasks.Voting.Counts.{or_zero_vote, counts_agree}

-- The votes that hydration reads.
abbrev pub stored : ℕ → Database → Map Bytes ℤ
stored id db = map (λ p. (p.0, stored_vote p.1)) (select id db.task_participant)

-- The database has the rows of the participants of the task, with their shares and their votes.
pub record Mirrors (t : VotingTask) (db : Database) : Type 0 where
  pub keys_once : IsMap db.task_participant
  pub votes_once : IsMap t.decisions
  pub shares_kept :
      (d : Bytes) (p : Participant)
      → participant_of t.task_info d ≡ some p
      → Option.map
          (λ (r : TaskParticipantRow). r.shares)
          (get (t.task_info.id, d) db.task_participant)
        ≡ some p.shares
  pub votes_kept :
      (d : Bytes)
      → or_zero_vote (get d t.decisions) ≡ or_zero_vote (get d (stored t.task_info.id db))

-- A byte as a signed number.
abbrev signed : ℕ → ℤ
signed m = if ltb m 128 then pos m else negsuc (255 - m)

neg_signed : (m : ℕ) → m < 256 → signed ((256 - m) % 256) ≡ neg_i8 (signed m)
unfolding neg_i8
neg_signed zero h = refl
neg_signed (suc m) h = elim (Bool-cases (ltb (suc m) 128)) [
  | inl small ↦ rw small (ground arith)
  | inr large ↦ rw large (ground arith)
]

stored_vote_lem :
    (p : Participant) (accept : Bool) (r : TaskParticipantRow)
    → r.shares ≡ p.shares
    → stored_vote (record r { decision = some accept }) ≡ vote_of p accept
unfolding stored_vote vote_of as_i8
stored_vote_lem p true r same = ground arith
stored_vote_lem p false r same = rw same (neg_signed (p.shares % 256) (omega arith))

-- The row of a participant after its vote.
abbrev voted_row : Bool → TaskParticipantRow → TaskParticipantRow
voted_row accept r = record r { decision = some accept }

module _ (id : ℕ) (d : Bytes) (accept : Bool) (db : Database) where
  row_after :
      (j : Bytes)
      → get (id, j) (set_task_decision id d accept db).1.task_participant ≡ (
          if bytes_beq d j
          then Option.map (voted_row accept) (get (id, j) db.task_participant)
          else get (id, j) db.task_participant)
  unfolding set_task_decision
  row_after j = ground (
    arith,
    get-update_row (id, d) (id, j) (voted_row accept) db.task_participant,
    nat_beq_iff id id,
  )

  get-stored :
      (db' : Database) (j : Bytes)
      → get j (stored id db') ≡ Option.map stored_vote (get (id, j) db'.task_participant)
  get-stored db' j =
      get-map_values stored_vote j (select id db'.task_participant)
      ∙ ap (Option.map stored_vote) (get-select id j db'.task_participant)

module _ (t : VotingTask) (db : Database) (d : Bytes) (accept : Bool) (p : Participant) where
  abbrev new_vote : ℤ
  new_vote = vote_of p accept

  votes_after :
      Mirrors t db
      → participant_of t.task_info d ≡ some p
      → (j : Bytes)
      → or_zero_vote (get j (insert d (vote_of p accept) t.decisions))
        ≡ or_zero_vote
            (get j (stored t.task_info.id (set_task_decision t.task_info.id d accept db).1))
  votes_after m known j = elim (Option-cases (get (t.task_info.id, d) db.task_participant)) [
    | inl absent ↦ absurd (ground (arith, m.shares_kept d p))
    | inr (r, found) ↦ ground (
      arith,
      found,
      m.shares_kept d p,
      m.votes_kept j,
      get-insert d j (vote_of p accept) t.decisions,
      bytes_beq_iff d j,
      get-stored t.task_info.id d accept db db j,
      get-stored t.task_info.id d accept db (set_task_decision t.task_info.id d accept db).1 j,
      row_after t.task_info.id d accept db j,
      stored_vote_lem p accept r,
    )
  ]

  after-Mirrors :
      Mirrors t db
      → participant_of t.task_info d ≡ some p
      → Mirrors
          (record t { decisions = insert d (vote_of p accept) t.decisions })
          (set_task_decision t.task_info.id d accept db).1
  after-Mirrors m known = record {
    keys_once =
        unfold set_task_decision in
        update_row-IsMap (t.task_info.id, d) (voted_row accept) db.task_participant m.keys_once;
    votes_once = insert-IsMap d (vote_of p accept) t.decisions m.votes_once;
    shares_kept =
        λ j q other. ground (arith, row_after t.task_info.id d accept db j, m.shares_kept j q);
    votes_kept = votes_after m known;
  }

-- The cached votes and the stored ones stay in step: where the database has the rows of a task's
-- participants with their shares and their votes, and a device's decision is taken, then after
-- storing it the rows again have the shares and votes of the cached task, and the decisions that
-- hydration reads are counted as just those of the cached task, accepting and rejecting.
pub stored_votes :
    (t : VotingTask) (db : Database) (d : Bytes) (accept : Bool) (u : DecisionUpdate)
    → Mirrors t db
    → (decide d accept t).0 ≡ ok u
    → let t' = (decide d accept t).1 in
      let db' = (set_task_decision t.task_info.id d accept db).1 in
      Mirrors t' db'
      × ((r : Map Bytes ℤ) × ((get_task_decisions t.task_info.id db').0 ≡ ok r)
          × (accepts_rejects r ≡ accepts_rejects t'.decisions))
unfolding decide get_task_decisions
stored_votes t db d accept u m done = elim (Option-cases (participant_of t.task_info d)) [
  | inl unknown ↦ absurd (ground arith)
  | inr (p, known) ↦
      let m' = after-Mirrors t db d accept p m known in
      rw known (
        m',
        (
          stored t.task_info.id (set_task_decision t.task_info.id d accept db).1,
          refl,
          sym (
              counts_agree _ _ m'.votes_once
                (map_values-IsMap stored_vote _ (select-IsMap t.task_info.id _ m'.keys_once))
                m'.votes_kept),
        ),
      )
]
