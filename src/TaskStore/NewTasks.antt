-- ===== src/TaskStore/NewTasks.antt =====
-- A new task of cached_task_store.rs: what `persist_task` stores in the database, and what a
-- restarted server hydrates of it.
pub mod GroupRequests
pub mod ThresholdRequests
use mathlib.Core.List.{append_assoc, append-nil, Permᴰ}
use meesign_server.Base.{
  ◌≢◌, subst, none, inr, ◌∙◌, inl, Option-cases, some, ℕ, ◌≡◌, refl, ap, sym, Bool, true, false,
  Option, List, [], ◌∷◌, map, String, Bytes, arith, nat_eq, not, leb, ltb, if◌then◌else◌, ◌++◌, sum,
  ◌&&◌, ◌≤◌,
}
use meesign_server.Base.All.{All}
use meesign_server.Base.Exec.{raise, pure, Exec, Outcome, ok, err, panic, continue, Error}
use meesign_server.Base.Int.{ℤ, u32}
use meesign_server.Base.Map.{contains_key, Map, get, insert, get_self-insert}
use meesign_server.Base.Reorder.{get-Perm}
use meesign_server.Persistence.Enums.{ProtocolType, KeyType}
use meesign_server.Persistence.Models.{TaskModel, Participant}
use meesign_server.Persistence.Names.{is_name_valid}
use meesign_server.Persistence.Postgres.{TaskRow, settle, Database, transaction, i32_limit}
use meesign_server.Persistence.Postgres.Consistent.{transaction-Keeps, IsConsistent}
use meesign_server.Persistence.Postgres.Created.{with_rows, with_task, created_rows}
use meesign_server.Persistence.Postgres.Devices.{join_tasks, get_tasks_participants}
use meesign_server.Persistence.Postgres.FreshReads.{
  join_fresh, read_votes, none_yet, IsStored, id_shares,
}
use meesign_server.Persistence.Postgres.Invariant.{create_group_task-Keeps}
use meesign_server.Persistence.Postgres.Reordered.{Reordered, Reordered-IsConsistent}
use meesign_server.Persistence.Postgres.Reordered.Reads.{participants_read, votes_read}
use meesign_server.Persistence.Postgres.Repo.{postgres}
use meesign_server.Persistence.Postgres.Results.{read_model}
use meesign_server.Persistence.Postgres.Tasks.{
  model_of, get_task_models, get_task_decisions, create_group_task, new_group_row, insert_task_with,
}
use meesign_server.Persistence.Repository.{Repository}
use meesign_server.State.Create.{new_task, group_info}
use meesign_server.TaskStore.{Task, persist_context, persist_group_task, participant_ids_shares}
use meesign_server.TaskStore.Hydrate.{
  open_group_task, group_task_from_model, task_from_model, hydrate_tasks, hydrate_models,
}
use meesign_server.TaskStore.Rows.{info_of, by_task, or_empty}
use meesign_server.Tasks.Info.{all_shares, total_shares, RunningTaskContext}
use meesign_server.Tasks.Voting.{accepts_rejects, VotingTask}

pub passed :
    {A : Type 0} (b : Bool) (e : Error) (m : Exec Database A) (db db' : Database) (a : A)
    → (if b then raise e else m) db ≡ (ok a, db')
    → (b ≡ false) × (m db ≡ (ok a, db'))
passed true e m db db' a h = absurd (cc)
passed false e m db db' a h = (refl, h)

settled_at :
    {A : Type 0} (r : Outcome A) (old new db' : Database) (a : A)
    → ◌≡◌ {A = Outcome A × Database} (r, settle r old new) (ok a, db')
    → ◌≡◌ {A = Outcome A × Database} (r, new) (ok a, db')
settled_at (ok b) old new db' a h = h
settled_at (err e) old new db' a h = absurd (cc)
settled_at panic old new db' a h = absurd (cc)

pub settled :
    {A : Type 0} (m : Exec Database A) (db db' : Database) (a : A)
    → transaction m db ≡ (ok a, db')
    → m db ≡ (ok a, db')
unfolding transaction
settled m db db' a h = settled_at (m db).0 db (m db).1 db' a h

by_task_lem :
    (id : ℕ) (ps : List Participant) (m : Map ℕ (List Participant))
    → or_empty (get id (by_task (map (λ p. (id, p)) ps) m)) ≡ or_empty (get id m) ++ ps
unfolding by_task or_empty
by_task_lem id [] m = sym (append-nil (or_empty (get id m)))
by_task_lem id (p ∷ ps) m =
    rw
      (
        by_task_lem id ps (insert id (or_empty (get id m) ++ (p ∷ [])) m),
        get_self-insert id (or_empty (get id m) ++ (p ∷ [])) m,
      )
      (append_assoc (or_empty (get id m)) (p ∷ []) ps)

-- The participants of the one task that is hydrated.
pub grouped :
    (id : ℕ) (ps : List Participant)
    → [] ≢ ps
    → get id (by_task (map (λ p. (id, p)) ps) []) ≡ some ps
unfolding or_empty get
grouped id ps somebody = elim (Option-cases (get id (by_task (map (λ p. (id, p)) ps) []))) [
  | inl gone ↦ absurd (somebody (sym (ap or_empty gone) ∙ by_task_lem id ps []))
  | inr (qs, there) ↦ there ∙ ap some (sym (ap or_empty there) ∙ by_task_lem id ps [])
]

-- A new task has no result.
pub unended :
    (id : ℕ) (db : Database)
    → IsConsistent db
    → get id db.task ≡ none
    → get id db.task_result ≡ none
unended id db c fresh = elim (Option-cases (get id db.task_result)) [
  | inl gone ↦ gone
  | inr (v, there) ↦ absurd (ground (arith, there, fresh, c.results_known id))
]

-- The rows of a new task, as hydration reads them in whatever order they come.
pub read_new :
    (id : ℕ) (row : TaskRow) (ps : List Participant) (db db' d : Database) (m : TaskModel)
    → IsConsistent db
    → IsConsistent db'
    → All (IsStored db) ps
    → insert_task_with id row (map id_shares ps) db ≡ (ok m, db')
    → Reordered db' d
    → (get_task_models (id ∷ []) d ≡ (ok (model_of id row none ∷ []), d))
      × ((qs : List Participant) × Permᴰ ps qs
          × (get_tasks_participants (id ∷ []) d ≡ (ok (map (λ q. (id, q)) qs), d)))
      × ((r : Map Bytes ℤ) × (get_task_decisions id d ≡ (ok r, d)) × (accepts_rejects r ≡ (0, 0)))
read_new id row ps db db' d m c kept stored made again =
    let (fresh, least, same) = created_rows id row (map id_shares ps) db db' m made in
    let unvoted = none_yet id db c fresh in
    let known : contains_key id (with_task id row db).task ≡ true =
      rw (get_self-insert id row db.task) refl in
    let (votes, listed, none_counted) =
      read_votes (with_task id row db) id (map id_shares ps) unvoted in
    let found : get id d.task ≡ some row =
      (get-Perm again.task kept.task_keys).1 id ∙ rw same (get_self-insert id row db.task) in
    let no_result : get id d.task_result ≡ none =
      (get-Perm again.task_result kept.result_keys).1 id ∙ rw same (unended id db c fresh) in
    let (read, now, alike) =
      votes_read db' d id again kept votes
        (subst (λ x. get_task_decisions id x ≡ (ok votes, x)) (sym same) listed) in
    (
      subst (λ o. get_task_models (id ∷ []) d ≡ (ok (model_of id row o ∷ []), d)) no_result
          (read_model d id row (Reordered-IsConsistent again kept) found),
      participants_read db' d id again kept ps (
          subst (λ x. join_tasks x (id ∷ []) x.task_participant ≡ map (λ q. (id, q)) ps) (sym same)
            (join_fresh (with_task id row db) id ps known unvoted stored)),
      (read, now, alike ∙ none_counted),
    )
