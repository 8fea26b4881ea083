-- ===== src/State/Phases.antt =====
-- The phases of a task, and how the operations of state.rs move between them.
use meesign_server.Base.{
  Option-cases, ℕ, ◌≡◌, refl, ◌⊎◌, inl, inr, some, List, [], ◌∷◌, arith, nat_eq, nat_beq,
  nat_beq_iff, if◌then◌else◌, Bool-cases, not, keep,
}
use meesign_server.Base.Exec.{
  general_protocol_error, or_raise, Exec, Outcome, ok, err, panic, ◌>>=◌, continue,
}
use meesign_server.Base.Map.{Map, get, insert, contains_key, get-insert}
use meesign_server.Persistence.Repository.{Repository}
use meesign_server.State.{State}
use meesign_server.TaskStore.{CachedTaskStore, cache_all, ensure_cached_tasks, get_task}
use meesign_server.TaskStore.Hydrate.{hydrate_tasks}
use meesign_server.Tasks.Info.{DeclinedTask, FinishedTask, FailedTask}
use meesign_server.Tasks.Running.{RunningTask}
use meesign_server.Tasks.Task.{Task, voting, running, declined, finished, failed, task_info}
use meesign_server.Tasks.Voting.{VotingTask}

-- What may follow the phase of a task: a vote decides whether it runs, is declined or fails to
-- start, a task that runs finishes or fails, and the last three phases are final.
pub data Follows : Task → Task → Type 0 where
  votes : {a : VotingTask} {t : Task} → Follows (voting a) t
  runs_on : {a b : RunningTask} → Follows (running a) (running b)
  finishes : {a : RunningTask} {b : FinishedTask} → Follows (running a) (finished b)
  fails : {a : RunningTask} {b : FailedTask} → Follows (running a) (failed b)
  stays_declined : {a b : DeclinedTask} → Follows (declined a) (declined b)
  stays_finished : {a b : FinishedTask} → Follows (finished a) (finished b)
  stays_failed : {a b : FailedTask} → Follows (failed a) (failed b)

pub Follows-refl : (t : Task) → Follows t t
Follows-refl (voting t) = votes
Follows-refl (running t) = runs_on
Follows-refl (declined t) = stays_declined
Follows-refl (finished t) = stays_finished
Follows-refl (failed t) = stays_failed

pub Follows-trans : {a b c : Task} → Follows a b → Follows b c → Follows a c
Follows-trans votes g = votes
Follows-trans runs_on runs_on = runs_on
Follows-trans runs_on finishes = finishes
Follows-trans runs_on fails = fails
Follows-trans finishes stays_finished = finishes
Follows-trans fails stays_failed = fails
Follows-trans stays_declined stays_declined = stays_declined
Follows-trans stays_finished stays_finished = stays_finished
Follows-trans stays_failed stays_failed = stays_failed

-- Of the cached tasks at most the one is written, with one that has the property.
abbrev pub WrittenBy : (Task → Type 0) → ℕ → Map ℕ Task → Map ℕ Task → Type 0
WrittenBy P id c c' =
    ((k : ℕ) → get k c' ≡ get k c)
    ⊎ (t' : Task) × P t' × ((k : ℕ) → get k c' ≡ (if nat_beq id k then some t' else get k c))

pub WrittenBy-trans :
    (P : Task → Type 0) (id : ℕ) (c c1 c2 : Map ℕ Task)
    → WrittenBy P id c c1
    → WrittenBy P id c1 c2
    → WrittenBy P id c c2
WrittenBy-trans P id c c1 c2 (inl a) (inl b) = inl (λ k. ground (arith, a k, b k))
WrittenBy-trans P id c c1 c2 (inr (t', f, a)) (inl b) = inr (t', f, λ k. ground (arith, a k, b k))
WrittenBy-trans P id c c1 c2 (inl a) (inr (t', f, b)) = inr (t', f, λ k. ground (arith, a k, b k))
WrittenBy-trans P id c c1 c2 (inr (u, g, a)) (inr (t', f, b)) =
    inr (t', f, λ k. ground (arith, a k, b k))

-- It is written with what may follow the task.
abbrev pub Written : ℕ → Task → Map ℕ Task → Map ℕ Task → Type 0
Written id t = WrittenBy (Follows t) id

module _ {R Tx : Type 0} where
  abbrev pub cache : State R Tx → Map ℕ Task
  cache s = s.task_store.task_cache

  -- The call writes at most the one task.
  abbrev pub WritesBy : {A : Type 0} → (Task → Type 0) → ℕ → Exec (State R Tx) A → Type 0
  WritesBy P id m = (s : State R Tx) → WrittenBy P id (cache s) (cache (m s).1)

  abbrev pub Writes : {A : Type 0} → ℕ → Task → Exec (State R Tx) A → Type 0
  Writes id t m = WritesBy (Follows t) id m

  pub continue-WrittenBy :
      {A B : Type 0} (P : Task → Type 0) (id : ℕ) (c : Map ℕ Task) (f : A → Exec (State R Tx) B)
      → ((a : A) → WritesBy P id (f a))
      → (r : Outcome A) (s : State R Tx) → WrittenBy P id c (cache s)
      → WrittenBy P id c (cache (continue r f s).1)
  continue-WrittenBy P id c f hf (ok a) s w = WrittenBy-trans P id _ _ _ w (hf a s)
  continue-WrittenBy P id c f hf (err e) s w = w
  continue-WrittenBy P id c f hf panic s w = w

  pub continue-Written :
      {A B : Type 0} (id : ℕ) (t : Task) (c : Map ℕ Task) (f : A → Exec (State R Tx) B)
      → ((a : A) → Writes id t (f a))
      → (r : Outcome A) (s : State R Tx) → Written id t c (cache s)
      → Written id t c (cache (continue r f s).1)
  continue-Written id t = continue-WrittenBy (Follows t) id

  pub Writes-bind :
      {A B : Type 0} (id : ℕ) (t : Task) (m : Exec (State R Tx) A) (f : A → Exec (State R Tx) B)
      → Writes id t m
      → ((a : A) → Writes id t (f a))
      → Writes id t (m >>= f)
  Writes-bind id t m f hm hf s = continue-Written id t (cache s) f hf (m s).0 (m s).1 (hm s)

  pub Writes-none :
      {A : Type 0} (id : ℕ) (t : Task) (m : Exec (State R Tx) A)
      → ((s : State R Tx) → cache (m s).1 ≡ cache s)
      → Writes id t m
  Writes-none id t m h s = inl (λ k. rw (h s) refl)

-- A task that is in the cache is not replaced by one that is read from the database.
get-cache_all :
    (k : ℕ) (t : Task) (ts : List Task) (c : Map ℕ Task)
    → get k c ≡ some t
    → get k (cache_all ts c) ≡ some t
unfolding cache_all
get-cache_all k t [] c h = h
get-cache_all k t (u ∷ ts) c h = elim (Bool-cases (contains_key (task_info u).id c)) [
  | inl there ↦ rw there (get-cache_all k t ts c h)
  | inr absent ↦ rw absent (
      get-cache_all k t ts (insert (task_info u).id u c)
        (ground (arith, get-insert (task_info u).id k u c, nat_beq_iff (task_info u).id k)))
]

module _ {R : Type 0} (db : Repository R) (k : ℕ) (t : Task) where
  -- The cached task stays, whatever the call returns.
  abbrev Stays : {A : Type 0} → Exec (CachedTaskStore R) A → Type 0
  Stays m =
      (s : CachedTaskStore R) → get k s.task_cache ≡ some t → get k (m s).1.task_cache ≡ some t

  continue-Stays :
      {A B : Type 0} (f : A → Exec (CachedTaskStore R) B)
      → ((a : A) → Stays (f a))
      → (r : Outcome A) (s : CachedTaskStore R) → get k s.task_cache ≡ some t
      → get k (continue r f s).1.task_cache ≡ some t
  continue-Stays f hf (ok a) s h = hf a s h
  continue-Stays f hf (err e) s h = h
  continue-Stays f hf panic s h = h

  ensure_cached-Stays : (ids : List ℕ) → Stays (ensure_cached_tasks db ids)
  unfolding ensure_cached_tasks
  ensure_cached-Stays ids s h =
      continue-Stays _ (λ ts s' g. get-cache_all k t ts s'.task_cache g)
        (hydrate_tasks db (keep (λ id. not (contains_key id s.task_cache)) ids) s.repo).0 _ h

  pub get_task-Stays : (id : ℕ) → Stays (get_task db id)
  unfolding get_task
  get_task-Stays id s h =
      continue-Stays _ (λ a s' g. g) (ensure_cached_tasks db (id ∷ []) s).0
        (ensure_cached_tasks db (id ∷ []) s).1 (ensure_cached-Stays (id ∷ []) s h)

module _ {R : Type 0} (db : Repository R) (id : ℕ) where
  found_entry :
      (c : Map ℕ Task) (e : Task)
      → or_raise (general_protocol_error "Task not found") (get id c) ≡ ok e
      → get id c ≡ some e
  found_entry c e h = elim (Option-cases (get id c)) [
    | inl absent ↦ absurd (cc)
    | inr (t, there) ↦ ground (arith, there, h)
  ]

  abbrev look_up : Exec (CachedTaskStore R) Task
  look_up s = (or_raise (general_protocol_error "Task not found") (get id s.task_cache), s)

  continue_found :
      (r : Outcome (Unit {0})) (s : CachedTaskStore R) (e : Task)
      → (continue r (λ a. look_up) s).0 ≡ ok e
      → get id (continue r (λ a. look_up) s).1.task_cache ≡ some e
  continue_found (ok a) s e h = found_entry s.task_cache e h
  continue_found (err a) s e h = absurd (cc)
  continue_found panic s e h = absurd (cc)

  -- The task that `get_task` returns is the cached one.
  pub get_task_found :
      (s : CachedTaskStore R) (e : Task)
      → (get_task db id s).0 ≡ ok e
      → get id (get_task db id s).1.task_cache ≡ some e
  unfolding get_task
  get_task_found s e h =
      continue_found (ensure_cached_tasks db (id ∷ []) s).0 (ensure_cached_tasks db (id ∷ []) s).1 e
        h
