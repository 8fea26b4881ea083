-- ===== src/TaskStore/NewTasks/ThresholdRequests.antt =====
-- New tasks of a group: hydration gives back the task that `persist_task` stored, save its
-- observers.
use mathlib.Core.List.{Permᴰ}
use mathlib.Core.List.Perm
use mathlib.Core.Option
use meesign_server.Base.{
  bytes_eq, pair_eq, arith, Option, subst, ℕ, ◌≡◌, ◌≢◌, refl, ◌∙◌, ap, sym, true, none, some, List,
  [], ◌∷◌, map, String, Bytes, nat_eq, not, ltb,
}
use meesign_server.Base.All.{All}
use meesign_server.Base.Exec.{Exec, Outcome, ok, err, panic, continue, pure}
use meesign_server.Base.Int.{ℤ}
use meesign_server.Base.Map.{get, Map}
use meesign_server.Base.Reorder.{get-Perm}
use meesign_server.Persistence.Enums.{TaskType}
use meesign_server.Persistence.Models.{Participant, Group, TaskModel}
use meesign_server.Persistence.Names.{is_name_valid}
use meesign_server.Persistence.Postgres.{GroupRow, select, TaskRow, Database, transaction}
use meesign_server.Persistence.Postgres.Consistent.{IsConsistent}
use meesign_server.Persistence.Postgres.Created.{created_rows, with_rows, with_task}
use meesign_server.Persistence.Postgres.FreshReads.{IsStored, id_shares}
use meesign_server.Persistence.Postgres.Groups.{group_with, group_of_row, or_default, get_group}
use meesign_server.Persistence.Postgres.Invariant.{create_task-Keeps}
use meesign_server.Persistence.Postgres.Reordered.{Reordered}
use meesign_server.Persistence.Postgres.Reordered.Reads.{select-Perm}
use meesign_server.Persistence.Postgres.Repo.{postgres}
use meesign_server.Persistence.Postgres.Tasks.{
  create_task, new_threshold_row, insert_task_with, model_of,
}
use meesign_server.Persistence.Repository.{Repository}
use meesign_server.State.Create.{new_task, threshold_info}
use meesign_server.TaskStore.{persist_context, persist_threshold_task, participant_ids_shares}
use meesign_server.TaskStore.Hydrate.{
  hydrate_tasks, hydrate_models, task_from_model, threshold_task_from_model, open_threshold_task,
  open_task,
}
use meesign_server.TaskStore.NewTasks.{
  read_new, transaction-Keeps, settled, All, IsConsistent, grouped, passed,
}
use meesign_server.TaskStore.Rows.{context_of, info_of}
use meesign_server.Tasks.Info.{RunningTaskContext}
use meesign_server.Tasks.Task.{Task}
use meesign_server.Tasks.Voting.{VotingTask, accepts_rejects}

ok_inj : {a b : RunningTaskContext} → ok a ≡ ok b → a ≡ b
ok_inj p = cc

ok_group_inj : {a b : Option Group} → ok a ≡ ok b → a ≡ b
ok_group_inj p = cc

module _ {R : Type 0} (D : Repository R) where
  -- The kinds of tasks of a group have one way in and one way out.
  persist_kind :
      (t : VotingTask) (k : TaskType) (g : Group) (content : Bytes) (ctx : RunningTaskContext)
      → context_of k g content ≡ ok ctx
      → persist_context D t ctx ≡ persist_threshold_task D t k g content
  unfolding context_of persist_context
  persist_kind t TaskType.group g content ctx h = absurd (cc)
  persist_kind t TaskType.sign_pdf g content ctx h = ap (persist_context D t) (ok_inj (sym h))
  persist_kind t TaskType.sign_challenge g content ctx h = ap (persist_context D t) (ok_inj (sym h))
  persist_kind t TaskType.decrypt g content ctx h = ap (persist_context D t) (ok_inj (sym h))

  hydrate_kind :
      (k : TaskType) (g : Group) (content : Bytes) (ctx : RunningTaskContext)
      → context_of k g content ≡ ok ctx
      → task_from_model D k ≡ threshold_task_from_model D
  unfolding context_of task_from_model
  hydrate_kind TaskType.group g content ctx h = absurd (cc)
  hydrate_kind TaskType.sign_pdf g content ctx h = refl
  hydrate_kind TaskType.sign_challenge g content ctx h = refl
  hydrate_kind TaskType.decrypt g content ctx h = refl

module _ (id : ℕ) (name : String) (k : TaskType) (g : Group) (content : Bytes)
    (ctx : RunningTaskContext) (ps : List Participant) (observers : List Bytes)
    (request : Bytes) where
  -- The task of `add_sign_task` and `add_decrypt_task`.
  abbrev pub threshold_request : VotingTask
  threshold_request = new_task (threshold_info id name k g ps observers request) g.threshold ctx

  -- The task without its observers, with the votes that are read.
  abbrev pub unobserved : Map Bytes ℤ → VotingTask
  unobserved r = record (new_task (threshold_info id name k g ps [] request) g.threshold ctx) {
    decisions = r;
  }

  abbrev row : TaskRow
  row = new_threshold_row g.id g.threshold name content request k g.key_type g.protocol

  abbrev create : Exec Database TaskModel
  create =
      create_task id g.id (map id_shares ps) g.threshold name content request k g.key_type
        g.protocol

  module _ (is_kind : context_of k g content ≡ ok ctx) where
    created :
        (db db' : Database)
        → persist_context postgres threshold_request ctx db ≡ (ok tt, db')
        → (m : TaskModel) × (transaction create db ≡ (ok m, db'))
    unfolding persist_threshold_task participant_ids_shares postgres new_task threshold_info
    created db db' h = stored_at (transaction create db) (
        sym (
          ap (λ (f : Exec Database (Unit {0})). f db)
            (persist_kind postgres threshold_request k g content ctx is_kind))
        ∙ h)
      where
        stored_at :
            (r : Outcome TaskModel × Database)
            → continue r.0 (λ m. pure tt) r.1 ≡ (ok tt, db')
            → (m : TaskModel) × (r ≡ (ok m, db'))
        stored_at (ok m, d) h = (m, ap (λ (x : Outcome (Unit {0}) × Database). (ok m, x.1)) h)
        stored_at (err e, d) h = absurd (cc)
        stored_at (panic, d) h = absurd (cc)

    inserted :
        (db db' : Database) (m : TaskModel)
        → create db ≡ (ok m, db')
        → insert_task_with id row (map id_shares ps) db ≡ (ok m, db')
    unfolding create_task
    inserted db db' m h = (passed (not (is_name_valid name)) _ _ db db' m h).1

    -- The hydration, from what the queries read.
    hydrated :
        {R : Type 0} (D : Repository R) (db : R) (r : Map Bytes ℤ)
        → D.get_task_models (id ∷ []) db ≡ (ok (model_of id row none ∷ []), db)
        → D.get_tasks_participants (id ∷ []) db ≡ (ok (map (λ q. (id, q)) ps), db)
        → D.get_task_decisions id db ≡ (ok r, db)
        → D.get_group g.id db ≡ (ok (some g), db)
        → accepts_rejects r ≡ (0, 0)
        → [] ≢ ps
        → ltb 0 g.threshold ≡ true
        → hydrate_tasks D (id ∷ []) db ≡ (ok (Task.voting (unobserved r) ∷ []), db)
    unfolding hydrate_tasks hydrate_models threshold_task_from_model open_threshold_task open_task
        model_of new_threshold_row info_of new_task threshold_info
    hydrated D db r models participants votes known none_counted somebody least =
        rw
          (
            models,
            participants,
            grouped id ps somebody,
            hydrate_kind D k g content ctx is_kind,
            known,
            votes,
            none_counted,
            least,
            is_kind,
          )
          refl

-- The group with its participants in another order.
abbrev pub with_shares : List (Bytes × ℕ) → Group → Group
with_shares shares g = record g { participant_ids_shares = shares }

group_with_shares :
    (id : Bytes) (old new : List (Bytes × ℕ)) (o : Option GroupRow) (g : Group)
    → group_with id old o ≡ some g
    → (g.participant_ids_shares ≡ old) × (group_with id new o ≡ some (with_shares new g))
unfolding group_with group_of_row or_default
group_with_shares id old new none g h = absurd (cc)
group_with_shares id old new (some columns) g h = (
  ap (λ (x : Option Group). or_default (Option.map (λ (y : Group). y.participant_ids_shares) x))
      (sym h),
  ap (Option.map (with_shares new)) h,
)

-- The group is read with its participants in some order.
read_any_order :
    (db d : Database) (g : Group)
    → IsConsistent db
    → Reordered db d
    → get_group g.id db ≡ (ok (some g), db)
    → (shares : List (Bytes × ℕ)) × Permᴰ g.participant_ids_shares shares
      × (get_group g.id d ≡ (ok (some (with_shares shares g)), d))
unfolding get_group
read_any_order db d g c again known =
    let old = select g.id db.group_participant in
    let new = select g.id d.group_participant in
    let read : group_with g.id old (get g.id db.groups) ≡ some g =
      ok_group_inj (ap (λ (x : Outcome (Option Group) × Database). x.0) known) in
    let (same, now) = group_with_shares g.id old new (get g.id db.groups) g read in
    (
      new,
      subst (λ l. Permᴰ l new) (sym same) (select-Perm g.id again.group_participant),
      ap (λ x. (ok x, d))
          (ap (group_with g.id new) ((get-Perm again.groups c.group_keys).1 g.id) ∙ now),
    )

context_with_shares :
    (k : TaskType) (g : Group) (content : Bytes) (ctx : RunningTaskContext)
    (shares : List (Bytes × ℕ))
    → context_of k g content ≡ ok ctx
    → (new : RunningTaskContext) × (context_of k (with_shares shares g) content ≡ ok new)
unfolding context_of
context_with_shares TaskType.group g content ctx shares h = absurd (cc)
context_with_shares TaskType.sign_pdf g content ctx shares h = (_, refl)
context_with_shares TaskType.sign_challenge g content ctx shares h = (_, refl)
context_with_shares TaskType.decrypt g content ctx shares h = (_, refl)

nobody : {ps : List Participant} → Permᴰ ps [] → [] ≡ ps
nobody h = sym (Perm.eq-nil ∣ h ∣₁)

module _ (id : ℕ) (name : String) (k : TaskType) (g : Group) (content : Bytes)
    (ctx : RunningTaskContext) (ps : List Participant) (observers : List Bytes) (request : Bytes)
    (is_kind : context_of k g content ≡ ok ctx) where
  -- A new task of a group, of whatever kind, survives a restart but for its observers: where the
  -- database is consistent and has the group and the devices of the participants as they are, and
  -- there is a participant, if persisting the task succeeds, then hydrating its identifier
  -- succeeds, in whatever order the rows of the tables come, changes nothing, and gives the task
  -- back in the phase of voting, with no observers, and otherwise with the same information, the
  -- same participants and shares in some order, the same acceptance threshold, the context of the
  -- group with its participants in some order, and with no vote counted.
  pub threshold_task_survives :
      (db db' d : Database)
      → IsConsistent db
      → All (IsStored db) ps
      → [] ≢ ps
      → get_group g.id db ≡ (ok (some g), db)
      → persist_context postgres
          (threshold_request id name k g content ctx ps observers request)
          ctx
          db
        ≡ (ok tt, db')
      → Reordered db' d
      → (qs : List Participant) × (shares : List (Bytes × ℕ)) × (new : RunningTaskContext)
        × (r : Map Bytes ℤ) × Permᴰ ps qs
        × Permᴰ g.participant_ids_shares shares
        × (context_of k (with_shares shares g) content ≡ ok new)
        × (hydrate_tasks postgres (id ∷ []) d ≡ (
          ok (
              Task.voting
                (unobserved id name k (with_shares shares g) content new qs observers request r)
              ∷ []),
          d,
        ))
        × (accepts_rejects r
            ≡ accepts_rejects
                (threshold_request id name k g content ctx ps observers request).decisions)
  unfolding postgres accepts_rejects new_task get_group new_threshold_row
  threshold_task_survives db db' d c stored somebody known done again =
      let row = new_threshold_row g.id g.threshold name content request k g.key_type g.protocol in
      let create =
        create_task id g.id (map id_shares ps) g.threshold name content request k g.key_type
          g.protocol in
      let (m, made) = created id name k g content ctx ps observers request is_kind db db' done in
      let rows =
        inserted id name k g content ctx ps observers request is_kind db db' m
          (settled create db db' m made) in
      let (fresh, least, same) = created_rows id row (map id_shares ps) db db' m rows in
      let kept : IsConsistent db' =
        subst IsConsistent (ap (λ (x : Outcome TaskModel × Database). x.1) made) (
          transaction-Keeps create
            (create_task-Keeps id g.id (map id_shares ps) g.threshold name content request k
              g.key_type g.protocol)
            db c) in
      let (models, (qs, order, participants), (r, votes, counted)) =
        read_new id row ps db db' d m c kept stored rows again in
      let group_kept : get_group g.id db' ≡ (ok (some g), db') =
        subst (λ d. get_group g.id d ≡ (ok (some g), d)) (sym same)
          (ap
            (λ (x : Outcome (Option Group) × Database).
              (x.0, with_rows id (map id_shares ps) (with_task id row db)))
            known) in
      let (shares, alike, group_read) = read_any_order db' d g kept again group_kept in
      let (new, is_new) = context_with_shares k g content ctx shares is_kind in
      (
        qs,
        shares,
        new,
        r,
        order,
        alike,
        is_new,
        hydrated id name k (with_shares shares g) content new qs observers request is_new postgres d
            r models participants votes group_read counted
            (λ none_left. somebody (nobody (subst (Permᴰ ps) (sym none_left) order)))
            (ground (arith, least)),
        counted,
      )
