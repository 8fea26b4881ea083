-- ===== src/TaskStore.antt =====
-- cached_task_store.rs: the cache of tasks over the repository. `hydrate_communicator` computes
-- the indices with `restore` of Shares.antt.
pub mod Rows
pub mod Hydrate
pub mod StoredVotes
pub mod NewTasks
use meesign_server.Base.{
  String, ℕ, Option, none, some, List, [], ◌∷◌, map, Bytes, nat_eq, keep, not, if◌then◌else◌, Bool,
}
use meesign_server.Base.Exec.{
  Exec, ◌>>=◌, ◌>>◌, pure, gets, modify, zoom, lift, or_raise, general_protocol_error,
}
use meesign_server.Base.Map.{Map, get, insert, contains_key}
use meesign_server.Persistence.Enums.{TaskType}
use meesign_server.Persistence.Models.{Group}
use meesign_server.Persistence.Repository.{Repository}
use meesign_server.TaskStore.Hydrate.{hydrate_tasks}
use meesign_server.Tasks.Info.{RunningTaskContext, group, sign_challenge, sign_pdf, decrypt}
use meesign_server.Tasks.Task.{Task, task_info, voting}
use meesign_server.Tasks.Voting.{VotingTask}

-- A lock on a task is held for the whole of a call, so the cache holds the tasks themselves.
pub record CachedTaskStore (R : Type 0) : Type 0 where
  pub task_cache : Map ℕ Task
  pub repo : R

-- The tasks of `ensure_cached_tasks` enter the cache where there is none.
unfoldable pub cache_all : List Task → Map ℕ Task → Map ℕ Task
unfolding task_info
cache_all [] cache = cache
cache_all (t ∷ ts) cache =
    cache_all ts
      (if contains_key (task_info t).id cache then cache else insert (task_info t).id t cache)

-- A write through the guard of `get_task_mut`.
unfoldable pub put_task : {R : Type 0} → ℕ → Task → Exec (CachedTaskStore R) (Unit {0})
put_task id t = modify (λ s. record s { task_cache = insert id t s.task_cache })

unfoldable pub participant_ids_shares : VotingTask → List (Bytes × ℕ)
participant_ids_shares t = map (λ p. (p.device.id, p.shares)) t.task_info.participants

module _ {R : Type 0} (db : Repository R) where
  -- A call of the repository.
  abbrev pub repository : {A : Type 0} → Exec R A → Exec (CachedTaskStore R) A
  repository = zoom (λ s. s.repo) (λ r s. record s { repo = r })

  unfoldable pub ensure_cached_tasks : List ℕ → Exec (CachedTaskStore R) (Unit {0})
  unfolding cache_all hydrate_tasks
  ensure_cached_tasks ids = do
    uncached ← gets (λ s. keep (λ id. not (contains_key id s.task_cache)) ids)
    tasks ← repository (hydrate_tasks db uncached)
    modify (λ s. record s { task_cache = cache_all tasks s.task_cache })

  -- `get_task`, and `get_task_mut` up to the writes through its guard.
  unfoldable pub get_task : ℕ → Exec (CachedTaskStore R) Task
  unfolding ensure_cached_tasks
  get_task id = do
    ensure_cached_tasks (id ∷ [])
    found ← gets (λ s. get id s.task_cache)
    lift (or_raise (general_protocol_error "Task not found") found)

  unfoldable pub persist_group_task : VotingTask → ℕ → Option String → Exec R (Unit {0})
  unfolding participant_ids_shares
  persist_group_task t threshold note = do
    db.create_group_task t.task_info.id (participant_ids_shares t) threshold t.task_info.name
        t.task_info.protocol_type t.task_info.key_type t.task_info.request note
    pure tt

  unfoldable pub persist_threshold_task : VotingTask → TaskType → Group → Bytes → Exec R (Unit {0})
  unfolding participant_ids_shares
  persist_threshold_task t task_type g content = do
    db.create_threshold_task t.task_info.id g.id (participant_ids_shares t) g.threshold
        t.task_info.name content t.task_info.request task_type t.task_info.key_type
        t.task_info.protocol_type
    pure tt

  unfoldable pub persist_context : VotingTask → RunningTaskContext → Exec R (Unit {0})
  unfolding persist_group_task persist_threshold_task
  persist_context t (group threshold note) = persist_group_task t threshold note
  persist_context t (sign_challenge g content) =
      persist_threshold_task t TaskType.sign_challenge g content
  persist_context t (sign_pdf g content) = persist_threshold_task t TaskType.sign_pdf g content
  persist_context t (decrypt g content) = persist_threshold_task t TaskType.decrypt g content

  -- `persist_task`: the task that it evicts, if any.
  unfoldable pub persist_task : VotingTask → Exec (CachedTaskStore R) (Option Task)
  unfolding persist_context
  persist_task t = do
    repository (persist_context t t.running_task_context)
    evicted ← gets (λ s. get t.task_info.id s.task_cache)
    modify (λ s. record s { task_cache = insert t.task_info.id (voting t) s.task_cache })
    pure evicted
