-- ===== src/State/Create.antt =====
-- `add_group_task`, `add_sign_task` and `add_decrypt_task` of state.rs, and the lists of devices
-- and groups.
use Prim.Native.String.{◌++◌}
use meesign_server.Base.{
  map, ℕ, ◌+◌, String, not, Option, none, some, List, [], ◌∷◌, Bytes, bytes_eq, bytes_beq, any,
  if◌then◌else◌,
}
use meesign_server.Base.Exec.{
  Exec, Outcome, ok, err, and_then, unwrap, ◌>>=◌, ◌>>◌, pure, lift, raise, or_raise,
  general_protocol_error,
}
use meesign_server.Base.Int.{u32}
use meesign_server.Base.Map.{Map, get, insert, extend, keys}
use meesign_server.Persistence.Enums.{ProtocolType, KeyType, TaskType}
use meesign_server.Persistence.Models.{Device, Participant, Group}
use meesign_server.Persistence.Names.{is_name_valid}
use meesign_server.Shares.{or_zero}
use meesign_server.State.{
  State, Services, in_store, database, send_updates, get_devices_with_ids,
  get_device_last_activation,
}
use meesign_server.TaskStore.{persist_task, get_task}
use meesign_server.Tasks.Info.{
  TaskInfo, total_shares, RunningTaskContext, group, sign_pdf, sign_challenge, decrypt,
}
use meesign_server.Tasks.Task.{ProtoTask, format}
use meesign_server.Tasks.Voting.{VotingTask}

-- `*shares.entry(device_id).or_default() += 1`
unfoldable pub count_ids : Map Bytes ℕ → List Bytes → Map Bytes ℕ
unfolding or_zero
count_ids shares [] = shares
count_ids shares (id ∷ ids) = count_ids (insert id (u32 (or_zero (get id shares) + 1)) shares) ids

-- The devices as participants; the index `shares[device.id]` panics on a missing key.
unfoldable pub with_shares : Map Bytes ℕ → List Device → Outcome (List Participant)
with_shares shares [] = ok []
with_shares shares (d ∷ ds) =
    and_then (unwrap (get d.id shares))
      λ n. and_then (with_shares shares ds) λ ps. ok (record { device = d; shares = n } ∷ ps)

-- The participants of a new group: the known devices among those that are asked for.
unfoldable pub group_participants : Map Bytes Device → List Bytes → Outcome (List Participant)
unfolding count_ids with_shares get_devices_with_ids
group_participants devices device_ids =
    let shares = count_ids [] device_ids in
    with_shares shares (get_devices_with_ids devices (keys shares))

-- The creator of a decryption observes it if it does not take part.
unfoldable pub observers_of : Option Bytes → List Participant → List Bytes
observers_of none ps = []
observers_of (some id) ps = if not (any (λ p. bytes_beq p.device.id id) ps) then id ∷ [] else []

-- The kind and the context of a signing task, by the group's keys.
unfoldable pub sign_context : KeyType → Group → Bytes → Outcome (TaskType × RunningTaskContext)
sign_context KeyType.sign_pdf g content = ok (TaskType.sign_pdf, sign_pdf g content)
sign_context KeyType.sign_challenge g content =
    ok (TaskType.sign_challenge, sign_challenge g content)
sign_context KeyType.decrypt g content =
    err (general_protocol_error "Decryption groups can't accept signing requests")

unfoldable pub decrypt_context : KeyType → Group → Bytes → Outcome RunningTaskContext
decrypt_context KeyType.decrypt g content = ok (decrypt g content)
decrypt_context _ g content =
    err (general_protocol_error "Signing group can't accept decryption requests")

-- A new vote.
unfoldable pub new_task : TaskInfo → ℕ → RunningTaskContext → VotingTask
new_task info threshold context = record {
  task_info = info;
  decisions = [];
  accept_threshold = threshold;
  running_task_context = context;
}

-- The task information of a task that establishes a group.
unfoldable pub group_info :
    ℕ → String → ProtocolType → KeyType → List Participant → Bytes → TaskInfo
group_info id name protocol key_type participants request = record {
  id = id;
  name = name;
  task_type = TaskType.group;
  protocol_type = protocol;
  key_type = key_type;
  participants = participants;
  observers = [];
  attempts = 0;
  request = request;
}

-- The task information of a group's task.
unfoldable pub threshold_info :
    ℕ → String → TaskType → Group → List Participant → List Bytes → Bytes → TaskInfo
threshold_info id name task_type g participants observers request = record {
  id = id;
  name = name;
  task_type = task_type;
  protocol_type = g.protocol;
  key_type = g.key_type;
  participants = participants;
  observers = observers;
  attempts = 0;
  request = request;
}

module _ {R Tx : Type 0} (v : Services R Tx) where
  unfoldable pub add_task : VotingTask → Exec (State R Tx) ProtoTask
  unfolding persist_task get_task send_updates format
  add_task new = do
    in_store (persist_task v.db new)
    t ← in_store (get_task v.db new.task_info.id)
    send_updates v t
    pure (format t none none)

  -- `add_group_task`; the identifier is the one that `Uuid::new_v4` draws.
  unfoldable pub add_group_task :
      ℕ
      → String
      → List Bytes
      → ℕ
      → ProtocolType
      → KeyType
      → Option String
      → Exec (State R Tx) ProtoTask
  unfolding is_name_valid group_participants group_info new_task add_task total_shares count_ids
  add_group_task id name device_ids threshold protocol key_type note s =
      (if not (is_name_valid name)
          then raise (general_protocol_error ("Invalid group name " ++ name))
          else (do
            participants ← lift (group_participants s.devices device_ids)
            let info = group_info id name protocol key_type participants (
                v.encode_group_request (keys (count_ids [] device_ids)) name threshold protocol
                  key_type note)
            add_task (new_task info (total_shares info) (group threshold note))))
        s

  -- The group of a request, and its participants.
  unfoldable pub group_of : Bytes → Exec (State R Tx) (Group × List Participant)
  group_of group_id = do
    found ← database v (v.db.get_group group_id)
    g ← lift (or_raise (general_protocol_error "Invalid group_id") found)
    participants ← database v (v.db.get_group_participants group_id)
    pure (g, participants)

  -- `add_sign_task`
  unfoldable pub add_sign_task : ℕ → Bytes → String → Bytes → Exec (State R Tx) ProtoTask
  unfolding group_of sign_context threshold_info new_task add_task
  add_sign_task id group_id name content = do
    (g, participants) ← group_of group_id
    (task_type, context) ← lift (sign_context g.key_type g content)
    add_task (
        new_task
          (threshold_info id name task_type g participants []
            (v.encode_sign_request g.id name content))
          g.threshold context)

  -- `add_decrypt_task`
  unfoldable pub add_decrypt_task :
      ℕ → Bytes → String → Bytes → String → Option Bytes → Exec (State R Tx) ProtoTask
  unfolding group_of decrypt_context threshold_info observers_of new_task add_task
  add_decrypt_task id group_id name content content_type creator = do
    (g, participants) ← group_of group_id
    context ← lift (decrypt_context g.key_type g content)
    add_task (
        new_task
          (threshold_info id name TaskType.decrypt g participants
            (observers_of creator participants)
            (v.encode_decrypt_request g.id name content content_type))
          g.threshold context)

  -- `get_device_groups` and `get_groups`
  unfoldable pub get_device_groups : Bytes → Exec (State R Tx) (List Group)
  get_device_groups device = database v (v.db.get_device_groups device)

  unfoldable pub get_groups : Exec (State R Tx) (List Group)
  get_groups = database v v.db.get_groups

-- The loop of `get_devices`: a device that was never active counts as active now.
unfoldable pub last_activations :
    {R Tx : Type 0} → ℕ → List (Bytes × Device) → Exec (State R Tx) (List (Device × ℕ))
unfolding get_device_last_activation
last_activations now [] = pure []
last_activations now ((id, d) ∷ devices) = do
  last_active ← get_device_last_activation now id
  rest ← last_activations now devices
  pure ((d, last_active) ∷ rest)

-- `get_devices`
unfoldable pub get_devices : {R Tx : Type 0} → ℕ → Exec (State R Tx) (List (Device × ℕ))
unfolding last_activations
get_devices now s = last_activations now s.devices s

-- `restore`: the state on start-up, over an empty cache.
unfoldable pub restored : {R Tx : Type 0} → Services R Tx → R → Outcome (State R Tx)
restored v repo =
    let (r, repo') = v.db.get_devices repo in
    and_then r λ ds. ok (record {
      devices = extend [] (map (λ (d : Device). (d.id, d)) ds);
      subscribers = [];
      task_store = record { task_cache = []; repo = repo' };
      task_last_updates = [];
      device_last_activations = [];
      helpers = [];
    })
