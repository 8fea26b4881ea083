-- ===== src/State/Requests.antt =====
-- The calls of state.rs that clients make, against the phases of one cached task.
use meesign_server.Base.{
  ℕ, ◌≡◌, ◌≢◌, refl, ◌∙◌, ap, Bool, true, false, String, Option, some, List, [], ◌∷◌, Bytes,
  bytes_eq, nat_eq, nat_beq_iff, arith, if◌then◌else◌, not,
}
use meesign_server.Base.Exec.{
  pure, general_protocol_error, or_raise, Exec, Outcome, ok, err, panic, continue, ◌>>=◌,
}
use meesign_server.Base.Map.{keys, get, insert, get-insert}
use meesign_server.Persistence.Names.{is_name_valid}
use meesign_server.State.{
  or_now, Participant, Device, get_device_last_activation, DeviceKind, add_device, activate_device,
  KeyType, ProtocolType, State, Services, in_store, database, send_updates, format_all,
}
use meesign_server.State.Create.{
  count_ids, decrypt_context, group_participants, add_decrypt_task, sign_context, last_activations,
  threshold_info, group_info, new_task, add_sign_task, group_of, add_group_task, add_task,
}
use meesign_server.State.Lifecycle.{Advances}
use meesign_server.State.Phases.{Follows, Follows-trans, cache, get_task-Stays}
use meesign_server.TaskStore.{persist_context, CachedTaskStore, get_task, persist_task}
use meesign_server.Tasks.Info.{group, total_shares}
use meesign_server.Tasks.Task.{Task, voting}
use meesign_server.Tasks.Voting.{VotingTask}

module _ {R Tx : Type 0} (k : ℕ) (t : Task) where
  -- The task is cached, in its phase or in one that may follow it.
  abbrev pub Followed : State R Tx → Type 0
  Followed s = (t' : Task) × (get k (cache s) ≡ some t') × Follows t t'

  abbrev pub Holds : {A : Type 0} → Exec (State R Tx) A → Type 0
  Holds m = (s : State R Tx) → Followed s → Followed (m s).1

  pub Advances-Holds : (m : Exec (State R Tx) (Unit {0})) → Advances m → Holds m
  Advances-Holds m h s (t', found, f) =
      let (t'', found', f') = h s k t' found in (t'', found', Follows-trans f f')

  pub same-Holds :
      {A : Type 0} (m : Exec (State R Tx) A)
      → ((s : State R Tx) → cache (m s).1 ≡ cache s)
      → Holds m
  same-Holds m same s (t', found, f) = (t', ap (get k) (same s) ∙ found, f)

  pub continue-Holds :
      {A B : Type 0} (f : A → Exec (State R Tx) B)
      → ((a : A) → Holds (f a))
      → (r : Outcome A) → Holds (continue r f)
  continue-Holds f hf (ok a) s h = hf a s h
  continue-Holds f hf (err e) s h = h
  continue-Holds f hf panic s h = h

  pub bind-Holds :
      {A B : Type 0} (m : Exec (State R Tx) A) (f : A → Exec (State R Tx) B)
      → Holds m
      → ((a : A) → Holds (f a))
      → Holds (m >>= f)
  bind-Holds m f hm hf s h = continue-Holds f hf (m s).0 (m s).1 (hm s h)

  if-Holds :
      {A : Type 0} (b : Bool) (m n : Exec (State R Tx) A)
      → Holds m
      → Holds n
      → Holds (if b then m else n)
  if-Holds true m n hm hn = hm
  if-Holds false m n hm hn = hn

  pub activate_device-Holds : (now : ℕ) (d : Bytes) → Holds (activate_device now d)
  unfolding activate_device
  activate_device-Holds now d s h = h

  pub last_activations-Holds :
      (now : ℕ) (devices : List (Bytes × Device)) → Holds (last_activations now devices)
  unfolding last_activations get_device_last_activation
  last_activations-Holds now [] s h = h
  last_activations-Holds now ((id, d) ∷ devices) s h =
      let s' = (get_device_last_activation now id s).1 in
      continue-Holds (λ rest. pure ((d, or_now now (get id s.device_last_activations)) ∷ rest))
        (λ rest s h. h) (last_activations now devices s').0 (last_activations now devices s').1
        (last_activations-Holds now devices s' h)

  module _ (v : Services R Tx) where
    pub database-Holds : {A : Type 0} (m : Exec R A) → Holds (database v m)
    database-Holds m = same-Holds (database v m) (λ s. refl)

    pub get_task-Holds : (id : ℕ) → Holds (in_store (get_task v.db id))
    get_task-Holds id s (t', found, f) = (t', get_task-Stays v.db k t' id s.task_store found, f)

    pub format_all-Holds : (d : Option Bytes) (ids : List ℕ) → Holds (format_all v d ids)
    unfolding format_all
    format_all-Holds d [] s h = h
    format_all-Holds d (id ∷ ids) s h =
        bind-Holds (in_store (get_task v.db id)) _ (get_task-Holds id)
          (λ e. bind-Holds (format_all v d ids) _ (format_all-Holds d ids) (λ rest s h. h)) s h

    persist_task-Holds :
        (new : VotingTask) → new.task_info.id ≢ k → Holds (in_store (persist_task v.db new))
    unfolding persist_task
    persist_task-Holds new other s (t', found, f) = (
      t',
      persisted (persist_context v.db new new.running_task_context s.task_store.repo).0 _ found,
      f,
    )
      where
        persisted :
            (r : Outcome (Unit {0})) (c : CachedTaskStore R)
            → get k c.task_cache ≡ some t'
            → get k
                (continue r
                  (λ a c. (
                    ok (get new.task_info.id c.task_cache),
                    record c { task_cache = insert new.task_info.id (voting new) c.task_cache },
                  ))
                  c).1.task_cache
              ≡ some t'
        persisted (ok a) c h = ground (
          arith,
          get-insert new.task_info.id k (voting new) c.task_cache,
          nat_beq_iff new.task_info.id k,
        )
        persisted (err e) c h = h
        persisted panic c h = h

    -- A new task is cached beside the others.
    pub add_task-Holds : (new : VotingTask) → new.task_info.id ≢ k → Holds (add_task v new)
    unfolding add_task send_updates
    add_task-Holds new other =
        bind-Holds (in_store (persist_task v.db new)) _ (persist_task-Holds new other) (λ evicted.
          bind-Holds (in_store (get_task v.db new.task_info.id)) _ (get_task-Holds new.task_info.id)
            (λ e s h. h))

    pub add_group_task-Holds :
        (id : ℕ) (name : String) (ids : List Bytes) (threshold : ℕ) (p : ProtocolType)
        (key_type : KeyType) (remark : Option String)
        → id ≢ k
        → Holds (add_group_task v id name ids threshold p key_type remark)
    unfolding add_group_task new_task group_info
    add_group_task-Holds id name ids threshold p key_type remark other s h =
        if-Holds (not (is_name_valid name)) _ _ (λ s' h'. h')
          (λ s' h'.
            continue-Holds (λ ps. add_task v (new_group ps))
              (λ ps s'' h''. add_task-Holds (new_group ps) other s'' h'')
              (group_participants s.devices ids) s' h')
          s h
      where
        new_group : List Participant → VotingTask
        new_group ps =
            let info =
              group_info id name p key_type ps (
                v.encode_group_request (keys (count_ids [] ids)) name threshold p key_type
                  remark) in
            new_task info (total_shares info) (group threshold remark)

    pub group_of-Holds : (group_id : Bytes) → Holds (group_of v group_id)
    unfolding group_of
    group_of-Holds group_id =
        bind-Holds (database v (v.db.get_group group_id)) _
          (database-Holds (v.db.get_group group_id))
          (λ found s h.
            continue-Holds _
              (λ g.
                bind-Holds (database v (v.db.get_group_participants group_id)) _
                  (database-Holds (v.db.get_group_participants group_id)) (λ ps s h. h))
              (or_raise (general_protocol_error "Invalid group_id") found) s h)

    pub add_sign_task-Holds :
        (id : ℕ) (group_id : Bytes) (name : String) (content : Bytes)
        → id ≢ k
        → Holds (add_sign_task v id group_id name content)
    unfolding add_sign_task new_task threshold_info
    add_sign_task-Holds id group_id name content other =
        bind-Holds (group_of v group_id) _ (group_of-Holds group_id) (λ p s h.
          continue-Holds _ (λ c s' h'. add_task-Holds _ other s' h')
            (sign_context p.0.key_type p.0 content) s h)

    pub add_decrypt_task-Holds :
        (id : ℕ) (group_id : Bytes) (name : String) (content : Bytes) (kind : String)
        (creator : Option Bytes)
        → id ≢ k
        → Holds (add_decrypt_task v id group_id name content kind creator)
    unfolding add_decrypt_task new_task threshold_info
    add_decrypt_task-Holds id group_id name content kind creator other =
        bind-Holds (group_of v group_id) _ (group_of-Holds group_id) (λ p s h.
          continue-Holds _ (λ c s' h'. add_task-Holds _ other s' h')
            (decrypt_context p.0.key_type p.0 content) s h)

    pub add_device-Holds :
        (id : Bytes) (name : String) (kind : DeviceKind) (cert : Bytes)
        → Holds (add_device v id name kind cert)
    unfolding add_device
    add_device-Holds id name kind cert =
        bind-Holds (database v (v.db.add_device id name kind cert)) _
          (database-Holds (v.db.add_device id name kind cert)) (λ d s h. h)
