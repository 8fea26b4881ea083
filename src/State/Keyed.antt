-- ===== src/State/Keyed.antt =====
-- Tasks cached under their own identifiers, as state.rs and cached_task_store.rs keep them.
use mathlib.Core.Option.{some_inj}
use meesign_server.Base.{
  not, keep, ℕ, ◌≡◌, refl, sym, ap, subst, ◌∙◌, inl, inr, some, List, [], ◌∷◌, arith, nat_eq,
  nat_beq, nat_beq_iff, Bool-cases, if◌then◌else◌,
}
use meesign_server.Base.Exec.{Exec, Outcome, ok, err, panic, continue}
use meesign_server.Base.Map.{Map, get, insert, get-insert, contains_key}
use meesign_server.Persistence.Repository.{Repository}
use meesign_server.State.{CachedTaskStore}
use meesign_server.State.Phases.{get_task-Stays, Follows, Follows-refl, Follows-trans, WrittenBy}
use meesign_server.State.Restarts.{own_id, Restarted}
use meesign_server.TaskStore.{get_task, ensure_cached_tasks, cache_all}
use meesign_server.TaskStore.Hydrate.{hydrate_tasks}
use meesign_server.Tasks.Running.{RunningTask}
use meesign_server.Tasks.Task.{Task, task_info, running}

-- Every task is cached under its identifier.
abbrev pub IsKeyed : Map ℕ Task → Type 0
IsKeyed c = (k : ℕ) (t : Task) → get k c ≡ some t → (task_info t).id ≡ k

-- The cached tasks are led on, and stay under their identifiers.
abbrev pub Leads : Map ℕ Task → Map ℕ Task → Type 0
Leads c c' =
    IsKeyed c'
    × ((k : ℕ) (t : Task) → get k c ≡ some t → (t' : Task) × (get k c' ≡ some t') × Follows t t')

pub Leads-trans : (c c1 c2 : Map ℕ Task) → Leads c c1 → Leads c1 c2 → Leads c c2
Leads-trans c c1 c2 a b = (
  b.0,
  λ k t h.
      let (t1, h1, f1) = a.1 k t h in
      let (t2, h2, f2) = b.1 k t1 h1 in (t2, h2, Follows-trans f1 f2),
)

pub Leads-refl : (c : Map ℕ Task) → IsKeyed c → Leads c c
Leads-refl c keyed = (keyed, λ k t h. (t, h, Follows-refl t))

inserted-IsKeyed :
    (id : ℕ) (t : Task) (c c' : Map ℕ Task)
    → IsKeyed c
    → (task_info t).id ≡ id
    → ((k : ℕ) → get k c' ≡ (if nat_beq id k then some t else get k c))
    → IsKeyed c'
inserted-IsKeyed id t c c' keyed own got k u h = elim (Bool-cases (nat_beq id k)) [
  | inl same ↦
      let t_u : t ≡ u = ground (arith, got k, h) in
      subst (λ x. (task_info x).id ≡ k) t_u (own ∙ (nat_beq_iff id k).0 same)
  | inr other ↦ keyed k u (ground (arith, got k, h))
]

cache_all-IsKeyed : (ts : List Task) (c : Map ℕ Task) → IsKeyed c → IsKeyed (cache_all ts c)
unfolding cache_all
cache_all-IsKeyed [] c h = h
cache_all-IsKeyed (t ∷ ts) c h = elim (Bool-cases (contains_key (task_info t).id c)) [
  | inl there ↦ rw there (cache_all-IsKeyed ts c h)
  | inr absent ↦ rw absent (
      cache_all-IsKeyed ts (insert (task_info t).id t c)
        (inserted-IsKeyed (task_info t).id t c _ h refl (λ k. get-insert (task_info t).id k t c)))
]

-- The task that is restarted, among all tasks.
pub Restarted-Leads :
    (w : RunningTask) (c c' : Map ℕ Task)
    → IsKeyed c
    → get (own_id w) c ≡ some (running w)
    → WrittenBy (Restarted w) (own_id w) c c'
    → Leads c c'
Restarted-Leads w c c' keyed found (inl same) =
    (λ k t h. keyed k t (sym (same k) ∙ h), λ k t h. (t, same k ∙ h, Follows-refl t))
Restarted-Leads w c c' keyed found (inr (t', p, got)) = (
  inserted-IsKeyed (own_id w) t' c c' keyed p.1 got,
  λ k t h. elim (Bool-cases (nat_beq (own_id w) k)) [
    | inr other ↦ (t, ground (arith, got k, h), Follows-refl t)
    | inl same ↦
        let w_t : running w ≡ t =
          some_inj.0 (sym found ∙ ap (λ j. get j c) ((nat_beq_iff (own_id w) k).0 same) ∙ h) in
        (t', ground (arith, got k), subst (λ u. Follows u t') w_t p.0)
  ],
)

module _ {R : Type 0} (db : Repository R) where
  -- The call of the store leads the tasks on.
  abbrev StoreLeads : {A : Type 0} → Exec (CachedTaskStore R) A → Type 0
  StoreLeads m = (s : CachedTaskStore R) → IsKeyed s.task_cache → IsKeyed (m s).1.task_cache

  continue-StoreLeads :
      {A B : Type 0} (f : A → Exec (CachedTaskStore R) B)
      → ((a : A) → StoreLeads (f a))
      → (r : Outcome A) (s : CachedTaskStore R) → IsKeyed s.task_cache
      → IsKeyed (continue r f s).1.task_cache
  continue-StoreLeads f hf (ok a) s h = hf a s h
  continue-StoreLeads f hf (err e) s h = h
  continue-StoreLeads f hf panic s h = h

  ensure_cached-IsKeyed : (ids : List ℕ) → StoreLeads (ensure_cached_tasks db ids)
  unfolding ensure_cached_tasks
  ensure_cached-IsKeyed ids s h =
      continue-StoreLeads _ (λ ts s' g. cache_all-IsKeyed ts s'.task_cache g)
        (hydrate_tasks db (keep (λ id. not (contains_key id s.task_cache)) ids) s.repo).0 _ h

  get_task-IsKeyed : (id : ℕ) → StoreLeads (get_task db id)
  unfolding get_task
  get_task-IsKeyed id s h =
      continue-StoreLeads _ (λ a s' g. g) (ensure_cached_tasks db (id ∷ []) s).0
        (ensure_cached_tasks db (id ∷ []) s).1 (ensure_cached-IsKeyed (id ∷ []) s h)

  pub get_task-Leads :
      (id : ℕ) (s : CachedTaskStore R)
      → IsKeyed s.task_cache
      → Leads s.task_cache (get_task db id s).1.task_cache
  get_task-Leads id s h =
      (get_task-IsKeyed id s h, λ k t found. (t, get_task-Stays db k t id s found, Follows-refl t))
