-- ===== src/TaskStore/NewTasks/GroupRequests.antt =====
-- New tasks that establish a group: hydration gives back the task that `persist_task` stored.
use mathlib.Core.List.{Permᴰ}
use meesign_server.Base.{
  sym, ◌≢◌, subst, none, ℕ, ◌≡◌, refl, ap, true, Option, List, [], ◌∷◌, map, String, Bytes, arith,
  nat_eq, not, leb, ltb, sum, ◌&&◌, ◌≤◌,
}
use meesign_server.Base.All.{All}
use meesign_server.Base.Exec.{pure, Outcome, ok, err, panic, continue}
use meesign_server.Base.Int.{ℤ, u32}
use meesign_server.Base.Map.{Map}
use meesign_server.Base.Reorder.{sum-Perm, Perm-map}
use meesign_server.Persistence.Enums.{ProtocolType, KeyType}
use meesign_server.Persistence.Models.{TaskModel, Participant}
use meesign_server.Persistence.Names.{is_name_valid}
use meesign_server.Persistence.Postgres.{Database, transaction, i32_limit}
use meesign_server.Persistence.Postgres.Consistent.{transaction-Keeps, IsConsistent}
use meesign_server.Persistence.Postgres.FreshReads.{IsStored, id_shares}
use meesign_server.Persistence.Postgres.Invariant.{create_group_task-Keeps}
use meesign_server.Persistence.Postgres.Reordered.{Reordered}
use meesign_server.Persistence.Postgres.Repo.{postgres}
use meesign_server.Persistence.Postgres.Tasks.{
  model_of, create_group_task, new_group_row, insert_task_with,
}
use meesign_server.Persistence.Repository.{Repository}
use meesign_server.State.Create.{new_task, group_info}
use meesign_server.TaskStore.{Task, persist_context, persist_group_task, participant_ids_shares}
use meesign_server.TaskStore.Hydrate.{
  open_group_task, group_task_from_model, task_from_model, hydrate_tasks, hydrate_models,
}
use meesign_server.TaskStore.NewTasks.{grouped, passed, settled, read_new}
use meesign_server.TaskStore.Rows.{info_of}
use meesign_server.Tasks.Info.{all_shares, total_shares, RunningTaskContext}
use meesign_server.Tasks.Voting.{accepts_rejects, VotingTask}

with_somebody :
    (ps : List Participant) → 1 ≤ u32 (sum (map (λ q. q.1) (map id_shares ps))) → [] ≢ ps
unfolding sum
with_somebody [] h = absurd (omega (arith, h))
with_somebody (q ∷ qs) h = λ same. absurd (cc)

shares_same : (ps : List Participant) → map (λ q. q.1) (map id_shares ps) ≡ all_shares ps
shares_same [] = refl
shares_same (p ∷ ps) = ap (λ l. p.shares ∷ l) (shares_same ps)

positive :
    (ps : List Participant)
    → 1 ≤ u32 (sum (map (λ q. q.1) (map id_shares ps)))
    → ltb 0 (u32 (sum (all_shares ps))) ≡ true
positive ps h = ground (arith, subst (λ l. 1 ≤ u32 (sum l)) (shares_same ps) h)

module _ (id : ℕ) (name : String) (p : ProtocolType) (key_type : KeyType) (ps : List Participant)
    (request : Bytes) (threshold : ℕ) (remark : Option String) where
  -- The task of `add_group_task`.
  abbrev pub group_request : VotingTask
  group_request =
      let info = group_info id name p key_type ps request in
      new_task info (total_shares info) (RunningTaskContext.group threshold remark)

  created :
      (db db' : Database)
      → persist_context postgres group_request group_request.running_task_context db ≡ (ok tt, db')
      → (m : TaskModel) × (transaction
            (create_group_task id (map id_shares ps) threshold name p key_type request remark)
            db
          ≡ (ok m, db'))
  unfolding persist_context persist_group_task participant_ids_shares postgres new_task group_info
  created db db' h =
      stored_at
        (transaction
          (create_group_task id (map id_shares ps) threshold name p key_type request remark) db)
        h
    where
      stored_at :
          (r : Outcome TaskModel × Database)
          → continue r.0 (λ m. pure tt) r.1 ≡ (ok tt, db')
          → (m : TaskModel) × (r ≡ (ok m, db'))
      stored_at (ok m, d) h = (m, ap (λ (x : Outcome (Unit {0}) × Database). (ok m, x.1)) h)
      stored_at (err e, d) h = absurd (cc)
      stored_at (panic, d) h = absurd (cc)

  inserted :
      (db db' : Database) (m : TaskModel)
      → create_group_task id (map id_shares ps) threshold name p key_type request remark db
        ≡ (ok m, db')
      → (1 ≤ u32 (sum (map (λ q. q.1) (map id_shares ps))))
        × (insert_task_with id
              (new_group_row threshold name p key_type request remark)
              (map id_shares ps)
              db
            ≡ (ok m, db'))
  unfolding create_group_task
  inserted db db' m h =
      let (named, h1) = passed (not (is_name_valid name)) _ _ db db' m h in
      let total = u32 (sum (map (λ q. q.1) (map id_shares ps))) in
      let (bounded, h2) = passed (not (leb 1 threshold && leb threshold total)) _ _ db db' m h1 in
      let (small, h3) = passed (not (ltb threshold i32_limit)) _ _ db db' m h2 in
      (ground (arith, bounded), h3)

  -- The hydration, from what the queries read.
  hydrated :
      {R : Type 0} (D : Repository R) (db : R) (r : Map Bytes ℤ)
      → D.get_task_models (id ∷ []) db
        ≡ (ok (model_of id (new_group_row threshold name p key_type request remark) none ∷ []), db)
      → D.get_tasks_participants (id ∷ []) db ≡ (ok (map (λ q. (id, q)) ps), db)
      → D.get_task_decisions id db ≡ (ok r, db)
      → accepts_rejects r ≡ (0, 0)
      → 1 ≤ u32 (sum (map (λ q. q.1) (map id_shares ps)))
      → hydrate_tasks D (id ∷ []) db
        ≡ (ok (Task.voting (record group_request { decisions = r }) ∷ []), db)
  unfolding hydrate_tasks hydrate_models task_from_model group_task_from_model open_group_task
      model_of new_group_row info_of new_task group_info total_shares
  hydrated D db r models participants votes none_counted some_shares =
      rw
        (
          models,
          participants,
          grouped id ps (with_somebody ps some_shares),
          votes,
          none_counted,
          positive ps some_shares,
        )
        refl

module _ (id : ℕ) (name : String) (p : ProtocolType) (key_type : KeyType) (ps : List Participant)
    (request : Bytes) (threshold : ℕ) (remark : Option String) where
  -- The new task, with its participants in the given order.
  abbrev pub requested : List Participant → VotingTask
  requested qs = group_request id name p key_type qs request threshold remark

  -- A new task that establishes a group survives a restart: where the database is consistent and
  -- has the devices of the participants as they are, if persisting the task succeeds, then
  -- hydrating its identifier succeeds, in whatever order the rows of the tables come, changes
  -- nothing, and gives the task back in the phase of voting, with the same information, the same
  -- participants and shares in some order, the same acceptance threshold and context, and with no
  -- vote counted, as in the new task.
  pub group_task_survives :
      (db db' d : Database)
      → IsConsistent db
      → All (IsStored db) ps
      → persist_context postgres (requested ps) (requested ps).running_task_context db
        ≡ (ok tt, db')
      → Reordered db' d
      → (qs : List Participant) × (r : Map Bytes ℤ) × Permᴰ ps qs
        × (hydrate_tasks postgres (id ∷ []) d
            ≡ (ok (Task.voting (record (requested qs) { decisions = r }) ∷ []), d))
        × ((requested qs).accept_threshold ≡ (requested ps).accept_threshold)
        × (accepts_rejects r ≡ accepts_rejects (requested ps).decisions)
  unfolding postgres accepts_rejects new_task group_info total_shares
  group_task_survives db db' d c stored done again =
      let row = new_group_row threshold name p key_type request remark in
      let create =
        create_group_task id (map id_shares ps) threshold name p key_type request remark in
      let (m, made) = created id name p key_type ps request threshold remark db db' done in
      let (some_shares, rows) =
        inserted id name p key_type ps request threshold remark db db' m
          (settled create db db' m made) in
      let kept : IsConsistent db' =
        subst IsConsistent (ap (λ (x : Outcome TaskModel × Database). x.1) made) (
          transaction-Keeps create
            (create_group_task-Keeps id (map id_shares ps) threshold name p key_type request remark)
            db c) in
      let (models, (qs, same, participants), (r, votes, counted)) =
        read_new id row ps db db' d m c kept stored rows again in
      let shares : sum (all_shares ps) ≡ sum (all_shares qs) =
        sum-Perm (Perm-map (λ (q : Participant). q.shares) same) in
      (
        qs,
        r,
        same,
        hydrated id name p key_type qs request threshold remark postgres d r models participants
            votes counted (rw (shares_same qs, sym shares) (rw (shares_same ps) at some_shares)),
        ap u32 (sym shares),
        counted,
      )
