-- ===== src/Interfaces/Progress.antt =====
-- The requests of interfaces/grpc.rs against the phases of one cached task.
use meesign_server.Base.{List, String, ℕ, ◌≢◌, Bool, true, false, Option, none, some, Bytes, nat_eq}
use meesign_server.Communicator.Messages.{ClientMessage, Crypto}
use meesign_server.Interfaces.{
  logged, invalid_argument, call, ok_or, respond, unwrapped, Web, Handler, ◌>>=◌,
}
use meesign_server.Interfaces.Auth.{RequestMeta, extract_device_id}
use meesign_server.Interfaces.Grpc.{
  groups_for, tasks_for, is_empty_list, Surroundings, activate_named, decode_all,
}
use meesign_server.Interfaces.Grpc
use meesign_server.Interfaces.Messages.{protocol_of, key_type_of, GroupRequest, Answer, Rpc}
use meesign_server.Interfaces.Service.{serve}
use meesign_server.Interfaces.Serving.{
  Serves, proceed-Serves, if-Serves, bind-Serves, unwrapped-Serves, ok_or-Serves, checked,
}
use meesign_server.Persistence.Enums.{key_from_proto, protocol_from_proto}
use meesign_server.State.{
  in_store, database, activate_device, get_formatted_active_device_tasks, get_formatted_task,
  get_formatted_tasks, add_subscriber, State, Services,
}
use meesign_server.State.Create
use meesign_server.State.Decide.{decide_task}
use meesign_server.State.Lifecycle.{
  update_task-Advances, acknowledge_task-Advances, decide_task-Advances,
}
use meesign_server.State.Requests.{
  Holds, bind-Holds, format_all-Holds, get_task-Holds, add_group_task-Holds, database-Holds,
  activate_device-Holds, add_decrypt_task-Holds, last_activations-Holds, Advances-Holds,
  add_sign_task-Holds, add_device-Holds,
}
use meesign_server.State.Update.{update_task, acknowledge_task}
use meesign_server.TaskStore.{get_task}
use meesign_server.Tasks.Task.{Task}

module _ {R Tx : Type 0} (k : ℕ) (t : Task) (w : Web Tx) (meta : RequestMeta) where
  module _ ⦃x : Crypto⦄ (v : Services R Tx) (e : Surroundings Tx) (other : e.new_id ≢ k) where
    register-Serves : (name : String) (csr : Bytes) → Serves k t (Grpc.register w v e meta name csr)
    unfolding Grpc.register Grpc.issued Grpc.enrol
    register-Serves name csr = checked k t w meta false _ (λ s h.
        proceed-Serves k t (Grpc.enrol w v e meta name)
          (λ c s h. proceed-Serves k t _ (λ d s h. h) _ _ (add_device-Holds k t v _ name _ c s h))
          (Grpc.issued w v e meta name csr s).0 s h)

    sign-Serves :
        (g : Bytes) (name : String) (content : Bytes)
        → Serves k t (Grpc.sign w v e meta g name content)
    unfolding Grpc.sign
    sign-Serves g name content = checked k t w meta false _ (λ s h.
        proceed-Serves k t _ (λ a s h. h) _ _
          (add_sign_task-Holds k t v e.new_id g name content other s h))

    decrypt-Serves :
        (g : Bytes) (name : String) (content : Bytes) (kind : String)
        → Serves k t (Grpc.decrypt w v e meta g name content kind)
    unfolding Grpc.decrypt
    decrypt-Serves g name content kind = checked k t w meta false _ (λ s h.
        proceed-Serves k t _ (λ a s h. h) _ _
          (add_decrypt_task-Holds k t v e.new_id g name content kind (extract_device_id w meta)
            other s h))

    named-Serves : (d : Option Bytes) → Serves {R = R} {Tx = Tx} k t (activate_named e.now d)
    unfolding activate_named
    named-Serves none s h = h
    named-Serves (some d) s h = activate_device-Holds k t e.now d s h

    active-Serves : (d : Bytes) → Serves {R = R} {Tx = Tx} k t (call (activate_device e.now d))
    active-Serves d = activate_device-Holds k t e.now d

    get_task-Serves : (id : Bytes) (d : Option Bytes) → Serves k t (Grpc.get_task w v e meta id d)
    unfolding Grpc.get_task get_formatted_task
    get_task-Serves id d = checked k t w meta false _ (
        bind-Serves k t (unwrapped (w.uuid_from_slice id)) _
          (unwrapped-Serves k t (w.uuid_from_slice id))
          λ n. bind-Serves k t (activate_named e.now d) _ (named-Serves d) λ a.
            bind-Serves k t (call (get_formatted_task v n d)) _
              (bind-Holds k t (in_store (get_task v.db n)) _ (get_task-Holds k t v n) (λ a s h. h))
              (λ a s h. h))

    group-Serves : (request : GroupRequest) → Serves k t (Grpc.group w v e meta request)
    unfolding Grpc.group
    group-Serves request = checked k t w meta false _ (
        bind-Serves k t (unwrapped (protocol_of request.protocol)) _
          (unwrapped-Serves k t (protocol_of request.protocol))
          λ p.
            bind-Serves k t (unwrapped (key_type_of request.key_type)) _
              (unwrapped-Serves k t (key_type_of request.key_type))
              λ key_type s h.
                proceed-Serves k t _ (λ a s h. h) _ _
                  (add_group_task-Holds k t v e.new_id request.name request.device_ids
                    request.threshold (protocol_from_proto p) (key_from_proto key_type) none other s
                    h))

    tasks_for-Holds : (d : Option Bytes) → Holds k t (tasks_for v d)
    unfolding tasks_for get_formatted_tasks get_formatted_active_device_tasks
    tasks_for-Holds none =
        bind-Holds k t (database v v.db.get_tasks) _ (database-Holds k t v v.db.get_tasks)
          (format_all-Holds k t v none)
    tasks_for-Holds (some d) =
        bind-Holds k t (database v (v.db.get_active_device_tasks d)) _
          (database-Holds k t v (v.db.get_active_device_tasks d)) (format_all-Holds k t v (some d))

    groups_for-Holds : (d : Option Bytes) → Holds k t (groups_for v d)
    unfolding groups_for Create.get_groups Create.get_device_groups
    groups_for-Holds none = database-Holds k t v v.db.get_groups
    groups_for-Holds (some d) = database-Holds k t v (v.db.get_device_groups d)

    get_tasks-Serves : (d : Option Bytes) → Serves k t (Grpc.get_tasks w v e meta d)
    unfolding Grpc.get_tasks
    get_tasks-Serves d = checked k t w meta false _ (
        bind-Serves k t (activate_named e.now d) _ (named-Serves d)
          λ a. bind-Serves k t (call (tasks_for v d)) _ (tasks_for-Holds d) (λ a s h. h))

    get_groups-Serves : (d : Option Bytes) → Serves k t (Grpc.get_groups w v e meta d)
    unfolding Grpc.get_groups
    get_groups-Serves d = checked k t w meta false _ (
        bind-Serves k t (activate_named e.now d) _ (named-Serves d)
          λ a. bind-Serves k t (call (groups_for v d)) _ (groups_for-Holds d) (λ a s h. h))

    get_devices-Serves : Serves k t (Grpc.get_devices w v e meta)
    unfolding Grpc.get_devices Create.get_devices
    get_devices-Serves = checked k t w meta false _ (λ s h.
        proceed-Serves k t _ (λ a s h. h) _ _ (last_activations-Holds k t e.now s.devices s h))

    log-Serves : Serves k t (Grpc.log w v e meta)
    unfolding Grpc.log
    log-Serves = checked k t w meta false _ (
        bind-Serves k t (activate_named e.now (extract_device_id w meta)) _
          (named-Serves (extract_device_id w meta)) (λ a s h. h))

    -- The device of a request, and the task that it names.
    for_device :
        {A : Type 0} (f : Bytes → Handler (State R Tx) A)
        → ((d : Bytes) → Serves k t (f d))
        → Serves k t (unwrapped (extract_device_id w meta) >>= f)
    for_device f hf =
        bind-Serves k t (unwrapped (extract_device_id w meta)) f
          (unwrapped-Serves k t (extract_device_id w meta)) hf

    for_task :
        {A : Type 0} (id : Bytes) (f : ℕ → Handler (State R Tx) A)
        → ((n : ℕ) → Serves k t (f n))
        → Serves k t (unwrapped (w.uuid_from_slice id) >>= f)
    for_task id f hf =
        bind-Serves k t (unwrapped (w.uuid_from_slice id)) f
          (unwrapped-Serves k t (w.uuid_from_slice id)) hf

    subscribe-Serves : Serves k t (Grpc.subscribe_updates w v e meta)
    unfolding Grpc.subscribe_updates add_subscriber
    subscribe-Serves = checked k t w meta true _ (for_device _ (λ d s h. h))

    -- A call of the state, and the answer.
    then-Serves :
        {A B : Type 0} (m : Handler (State R Tx) A) (b : B)
        → Serves k t m
        → Serves k t (m >>= λ a. respond b)
    then-Serves m b hm s h = proceed-Serves k t _ (λ a s h. h) (m s).0 (m s).1 (hm s h)

    after_activation :
        {A : Type 0} (d : Bytes) (f : Unit {0} → Handler (State R Tx) A)
        → Serves k t (f tt)
        → Serves k t (call (activate_device e.now d) >>= f)
    after_activation d f hf s h =
        proceed-Serves k t f (λ a. hf) (call (activate_device e.now d) s).0 _ (active-Serves d s h)

    acknowledged_by-Serves : (id d : Bytes) → Serves k t (Grpc.acknowledged_by w v e meta id d)
    unfolding Grpc.acknowledged_by
    acknowledged_by-Serves id d =
        after_activation d (λ a. unwrapped (w.uuid_from_slice id) >>= answered)
          (for_task id answered λ n.
            then-Serves (logged (acknowledge_task v n d)) Answer.acknowledged
              (Advances-Holds k t (acknowledge_task v n d) (acknowledge_task-Advances v n d)))
      where
        answered : ℕ → Handler (State R Tx) Answer
        answered n = logged (acknowledge_task v n d) >>= λ b. respond Answer.acknowledged

    acknowledge-Serves : (id : Bytes) → Serves k t (Grpc.acknowledge_task w v e meta id)
    unfolding Grpc.acknowledge_task
    acknowledge-Serves id =
        checked k t w meta true _
          (for_device (Grpc.acknowledged_by w v e meta id) (acknowledged_by-Serves id))

    decided-Serves :
        (d : Bytes) (n : ℕ) (accept : Bool) → Serves k t (Grpc.decided w v e meta d n accept)
    unfolding Grpc.decided
    decided-Serves d n accept =
        after_activation d
          (λ a. logged (decide_task v e.now n d accept) >>= λ b. respond Answer.acknowledged)
          (then-Serves (logged (decide_task v e.now n d accept)) Answer.acknowledged (
            Advances-Holds k t (decide_task v e.now n d accept)
              (decide_task-Advances v e.now n d accept)))

    decide-Serves :
        (id : Bytes) (accept : Bool) → Serves k t (Grpc.decide_task w v e meta id accept)
    unfolding Grpc.decide_task
    decide-Serves id accept = checked k t w meta true _ (
        for_device _
          λ d. for_task id (λ n. Grpc.decided w v e meta d n accept) λ n. decided-Serves d n accept)

    updated-Serves :
        (d : Bytes) (n attempt : ℕ) (ms : List ClientMessage)
        → Serves k t (Grpc.updated w v e meta d n attempt ms)
    unfolding Grpc.updated
    updated-Serves d n attempt ms =
        after_activation d
          (λ a. call (update_task v e.now n d ms attempt) >>= λ b. respond Answer.acknowledged)
          (then-Serves (call (update_task v e.now n d ms attempt)) Answer.acknowledged (
            Advances-Holds k t (update_task v e.now n d ms attempt)
              (update_task-Advances v e.now n d ms attempt)))

    update-Serves :
        (id : Bytes) (contents : List Bytes) (attempt : ℕ)
        → Serves k t (Grpc.update_task w v e meta id contents attempt)
    unfolding Grpc.update_task
    update-Serves id contents attempt = checked k t w meta true _ (
        for_device _ λ d. for_task id _ λ n.
          if-Serves k t (is_empty_list contents) _ _ (λ s h. h)
            (bind-Serves k t
              (ok_or (invalid_argument "Invalid ClientMessage data.") (decode_all w contents))
              (Grpc.updated w v e meta d n attempt) (ok_or-Serves k t _ (decode_all w contents))
              (updated-Serves d n attempt)))

    pub serve-Serves : (r : Rpc) → Serves k t (serve w v e meta r)
    unfolding serve Grpc.get_server_info
    serve-Serves Rpc.get_server_info = checked k t w meta false _ (λ s h. h)
    serve-Serves Rpc.get_devices = get_devices-Serves
    serve-Serves Rpc.subscribe_updates = subscribe-Serves
    serve-Serves (Rpc.register name csr) = register-Serves name csr
    serve-Serves (Rpc.sign g name content) = sign-Serves g name content
    serve-Serves (Rpc.decrypt g name content kind) = decrypt-Serves g name content kind
    serve-Serves (Rpc.group request) = group-Serves request
    serve-Serves (Rpc.get_task id d) = get_task-Serves id d
    serve-Serves (Rpc.update_task id contents attempt) = update-Serves id contents attempt
    serve-Serves (Rpc.get_tasks d) = get_tasks-Serves d
    serve-Serves (Rpc.get_groups d) = get_groups-Serves d
    serve-Serves (Rpc.log message) = log-Serves
    serve-Serves (Rpc.decide_task id accept) = decide-Serves id accept
    serve-Serves (Rpc.acknowledge_task id) = acknowledge-Serves id
