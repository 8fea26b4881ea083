-- ===== src/Interfaces/Grpc.antt =====
-- interfaces/grpc.rs: the handlers of the service.
use meesign_server.Base.{
  ℕ, String, Bool, true, false, Option, none, some, List, [], ◌∷◌, map, Bytes, if◌then◌else◌,
}
use meesign_server.Base.Exec.{Exec, Outcome, ok, err, and_then, unwrap, general_protocol_error}
use meesign_server.Communicator.Messages.{Crypto, ClientMessage}
use meesign_server.Interfaces.{
  Web, Handler, Reply, failed_precondition, invalid_argument, respond, refuse, call, call_or,
  reply_or, unwrapped, ok_or, logged, ◌>>=◌, ◌>>◌,
}
use meesign_server.Interfaces.Auth.{
  RequestMeta, extract_device_id, check_client_auth, cert_to_id, generate_jwt,
}
use meesign_server.Interfaces.Messages.{
  from_model, proto_device, protocol_of, key_type_of, GroupRequest, Answer, server_info,
  registration, task, tasks, groups, devices, acknowledged, subscribed,
}
use meesign_server.Persistence.Enums.{DeviceKind, protocol_from_proto, key_from_proto}
use meesign_server.Persistence.Models.{Group}
use meesign_server.State.{
  State, Services, activate_device, add_device, add_subscriber, get_formatted_task,
  get_formatted_tasks, get_formatted_active_device_tasks,
}
use meesign_server.State.Create.{add_group_task, add_sign_task, add_decrypt_task}
use meesign_server.State.Create
use meesign_server.State.Decide
use meesign_server.State.Update
use meesign_server.Tasks.Task.{ProtoTask}

-- What a handler reads of its surroundings: the clock, `Uuid::new_v4`, a random serial number, and
-- the sending end of a new channel.
pub record Surroundings (Tx : Type 0) : Type 0 where
  pub now : ℕ
  pub new_id : ℕ
  pub serial : Bytes
  pub new_channel : Tx

module _ {Tx : Type 0} (w : Web Tx) where
  -- `issue_certificate`
  unfoldable pub verified : Bool → Outcome (Unit {0})
  verified true = ok tt
  verified false = err (general_protocol_error "CSR does not contain a valid signature.")

  unfoldable pub issue_certificate : Bytes → String → Bytes → Outcome Bytes
  unfolding verified
  issue_certificate serial name csr =
      and_then (unwrap (w.verify_csr csr))
        λ valid. and_then (verified valid) λ _. unwrap (w.build_certificate name csr serial)

  -- `collect::<Result<Vec<_>, _>>()` of the decoded messages.
  unfoldable pub push_message :
      Option ClientMessage → Option (List ClientMessage) → Option (List ClientMessage)
  push_message none ms = none
  push_message (some m) none = none
  push_message (some m) (some ms) = some (m ∷ ms)

  unfoldable pub decode_all : List Bytes → Option (List ClientMessage)
  unfolding push_message
  decode_all [] = some []
  decode_all (bytes ∷ rest) = push_message (w.decode_message bytes) (decode_all rest)

abbrev pub is_empty_list : List Bytes → Bool
is_empty_list [] = true
is_empty_list (x ∷ xs) = false

module _ {R Tx : Type 0} where
  -- `if let Some(device_id)`: the device that a request names counts as active.
  unfoldable pub activate_named : ℕ → Option Bytes → Handler (State R Tx) (Unit {0})
  unfolding activate_device
  activate_named now none s = respond tt s
  activate_named now (some device_id) s = call (activate_device now device_id) s

module _ {R Tx : Type 0} (v : Services R Tx) where
  -- The branches of `get_tasks` and `get_groups` on the device that is asked for.
  unfoldable pub tasks_for : Option Bytes → Exec (State R Tx) (List ProtoTask)
  unfolding get_formatted_active_device_tasks get_formatted_tasks
  tasks_for none = get_formatted_tasks v
  tasks_for (some device_id) = get_formatted_active_device_tasks v device_id

  unfoldable pub groups_for : Option Bytes → Exec (State R Tx) (List Group)
  unfolding Create.get_device_groups Create.get_groups
  groups_for none = Create.get_groups v
  groups_for (some device_id) = Create.get_device_groups v device_id

module _ {R Tx : Type 0} (w : Web Tx) (v : Services R Tx) (e : Surroundings Tx)
    (meta : RequestMeta) where
  unfoldable pub get_server_info : Handler (State R Tx) Answer
  unfolding check_client_auth
  get_server_info = do check_client_auth w meta false; respond server_info

  unfoldable pub issued : String → Bytes → Handler (State R Tx) Bytes
  unfolding issue_certificate
  issued name csr s = (
    reply_or (failed_precondition "Request failed: certificate was not created")
        (issue_certificate w e.serial name csr),
    s,
  )

  unfoldable pub enrol : String → Bytes → Handler (State R Tx) Answer
  unfolding add_device cert_to_id generate_jwt
  enrol name certificate = do
    call_or (failed_precondition "Request failed: device was not added")
        (add_device v (cert_to_id w certificate) name DeviceKind.user certificate)
    respond (
        registration (cert_to_id w certificate) certificate
          (generate_jwt w e.now (cert_to_id w certificate)))

  unfoldable pub register : String → Bytes → Handler (State R Tx) Answer
  unfolding check_client_auth issued enrol
  register name csr = do
    check_client_auth w meta false
    certificate ← issued name csr
    enrol name certificate

  unfoldable pub sign : Bytes → String → Bytes → Handler (State R Tx) Answer
  unfolding check_client_auth add_sign_task
  sign group_id name content = do
    check_client_auth w meta false
    t ← call (add_sign_task v e.new_id group_id name content)
    respond (task t)

  unfoldable pub decrypt : Bytes → String → Bytes → String → Handler (State R Tx) Answer
  unfolding check_client_auth add_decrypt_task extract_device_id
  decrypt group_id name content content_type = do
    check_client_auth w meta false
    t ←
        call (
          add_decrypt_task v e.new_id group_id name content content_type (extract_device_id w meta))
    respond (task t)

  unfoldable pub get_task : Bytes → Option Bytes → Handler (State R Tx) Answer
  unfolding check_client_auth activate_named get_formatted_task
  get_task id device_id = do
    check_client_auth w meta false
    task_id ← unwrapped (w.uuid_from_slice id)
    activate_named e.now device_id
    t ← call (get_formatted_task v task_id device_id)
    respond (task t)

  unfoldable pub get_tasks : Option Bytes → Handler (State R Tx) Answer
  unfolding check_client_auth activate_named tasks_for
  get_tasks device_id = do
    check_client_auth w meta false
    activate_named e.now device_id
    ts ← call (tasks_for v device_id)
    respond (tasks ts)

  unfoldable pub get_groups : Option Bytes → Handler (State R Tx) Answer
  unfolding check_client_auth activate_named groups_for from_model
  get_groups device_id = do
    check_client_auth w meta false
    activate_named e.now device_id
    gs ← call (groups_for v device_id)
    respond (groups (map from_model gs))

  -- The note of the request is not passed on.
  unfoldable pub group : GroupRequest → Handler (State R Tx) Answer
  unfolding check_client_auth protocol_of key_type_of protocol_from_proto key_from_proto
      add_group_task
  group request = do
    check_client_auth w meta false
    protocol ← unwrapped (protocol_of request.protocol)
    key_type ← unwrapped (key_type_of request.key_type)
    t ← call_or (failed_precondition "Request failed") (
        add_group_task v e.new_id request.name request.device_ids request.threshold
          (protocol_from_proto protocol) (key_from_proto key_type) none)
    respond (task t)

  unfoldable pub get_devices : Handler (State R Tx) Answer
  unfolding check_client_auth Create.get_devices proto_device
  get_devices = do
    check_client_auth w meta false
    ds ← call (Create.get_devices e.now)
    respond (devices (map proto_device ds))

  unfoldable pub log : Handler (State R Tx) Answer
  unfolding check_client_auth activate_named extract_device_id
  log = do
    check_client_auth w meta false
    activate_named e.now (extract_device_id w meta)
    respond acknowledged

  unfoldable pub subscribe_updates : Handler (State R Tx) Answer
  unfolding check_client_auth extract_device_id add_subscriber
  subscribe_updates = do
    check_client_auth w meta true
    device_id ← unwrapped (extract_device_id w meta)
    λ s. (Reply.response subscribed, add_subscriber device_id e.new_channel s)

  module _ ⦃x : Crypto⦄ where
    -- The ends of the three handlers: the calls of the state.
    unfoldable pub updated : Bytes → ℕ → ℕ → List ClientMessage → Handler (State R Tx) Answer
    unfolding activate_device Update.update_task
    updated device_id task_id attempt messages = do
      call (activate_device e.now device_id)
      call (Update.update_task v e.now task_id device_id messages attempt)
      respond acknowledged

    unfoldable pub decided : Bytes → ℕ → Bool → Handler (State R Tx) Answer
    unfolding activate_device Decide.decide_task
    decided device_id task_id accept = do
      call (activate_device e.now device_id)
      logged (Decide.decide_task v e.now task_id device_id accept)
      respond acknowledged

    unfoldable pub acknowledged_by : Bytes → Bytes → Handler (State R Tx) Answer
    unfolding activate_device Update.acknowledge_task
    acknowledged_by id device_id = do
      call (activate_device e.now device_id)
      task_id ← unwrapped (w.uuid_from_slice id)
      logged (Update.acknowledge_task v task_id device_id)
      respond acknowledged

    unfoldable pub update_task : Bytes → List Bytes → ℕ → Handler (State R Tx) Answer
    unfolding check_client_auth extract_device_id decode_all updated
    update_task id contents attempt = do
      check_client_auth w meta true
      device_id ← unwrapped (extract_device_id w meta)
      task_id ← unwrapped (w.uuid_from_slice id)
      if is_empty_list contents then refuse (invalid_argument "Data must not be empty") else (do
        messages ← ok_or (invalid_argument "Invalid ClientMessage data.") (decode_all w contents)
        updated device_id task_id attempt messages)

    unfoldable pub decide_task : Bytes → Bool → Handler (State R Tx) Answer
    unfolding check_client_auth extract_device_id decided
    decide_task id accept = do
      check_client_auth w meta true
      device_id ← unwrapped (extract_device_id w meta)
      task_id ← unwrapped (w.uuid_from_slice id)
      decided device_id task_id accept

    unfoldable pub acknowledge_task : Bytes → Handler (State R Tx) Answer
    unfolding check_client_auth extract_device_id acknowledged_by
    acknowledge_task id = do
      check_client_auth w meta true
      device_id ← unwrapped (extract_device_id w meta)
      acknowledged_by id device_id
