-- ===== src/State.antt =====
-- state.rs: the state of the server, and how clients are told of tasks.
pub mod Choose
pub mod Candidates
pub mod Chosen
pub mod Decide
pub mod Update
pub mod Create
pub mod Created
pub mod Phases
pub mod Writes
pub mod Lifecycle
pub mod Requests
pub mod Restarts
pub mod Keyed
pub mod RestartCycle
use meesign_server.Base.{
  ℕ, String, Bool, Option, none, some, List, [], ◌∷◌, ◌++◌, map, Bytes, nat_eq, bytes_eq,
  if◌then◌else◌,
}
use meesign_server.Base.Exec.{Exec, ok, ◌>>=◌, ◌>>◌, pure, gets, modify, zoom}
use meesign_server.Base.Map.{Map, get, insert, remove, contains_key}
use meesign_server.Persistence.Enums.{DeviceKind, ProtocolType, KeyType}
use meesign_server.Persistence.Models.{Device, Participant, Group}
use meesign_server.Persistence.Repository.{Repository}
use meesign_server.TaskStore.{CachedTaskStore, get_task, repository}
use meesign_server.Tasks.Helper.{Helper}
use meesign_server.Tasks.SignPdfTask.{PdfHelpers}
use meesign_server.Tasks.Task.{Task, ProtoTask, format, task_info}

-- `StateInner`, with the children that sign_pdf.rs keeps in a global. `Tx` is the sending end of a
-- client's channel.
pub record State (R Tx : Type 0) : Type 0 where
  pub devices : Map Bytes Device
  pub subscribers : Map Bytes Tx
  pub task_store : CachedTaskStore R
  pub task_last_updates : Map ℕ ℕ
  pub device_last_activations : Map Bytes ℕ
  pub helpers : PdfHelpers

-- What the state uses of other crates: the database, the channels of tokio, whose `try_send` says
-- whether the message was queued, the choice of `choose_multiple` of the crate `rand`, the helper,
-- and the encoders of `prost` for the requests that a task keeps.
pub record Services (R Tx : Type 0) : Type 0 where
  pub db : Repository R
  pub try_send : Tx → ProtoTask → Bool × Tx
  pub choose_multiple : List Device → ℕ → List Device
  pub helper : Helper
  pub encode_group_request :
      List Bytes → String → ℕ → ProtocolType → KeyType → Option String → Bytes
  pub encode_sign_request : Bytes → String → Bytes → Bytes
  pub encode_decrypt_request : Bytes → String → Bytes → String → Bytes

-- `*entry.or_insert(now)`
unfoldable pub or_now : ℕ → Option ℕ → ℕ
or_now now none = now
or_now now (some t) = t

-- The devices of the identifiers that are known.
unfoldable pub get_devices_with_ids : Map Bytes Device → List Bytes → List Device
get_devices_with_ids devices [] = []
get_devices_with_ids devices (id ∷ ids) =
    let rest = get_devices_with_ids devices ids in
    elim (get id devices) [ none ↦ rest | some d ↦ d ∷ rest ]

unfoldable pub remove_all : {A : Type 0} → List Bytes → Map Bytes A → Map Bytes A
remove_all [] subscribers = subscribers
remove_all (id ∷ ids) subscribers = remove_all ids (remove id subscribers)

module _ {R Tx : Type 0} where
  -- A call of the task store, and one of the repository that it shares with the state.
  abbrev pub in_store : {A : Type 0} → Exec (CachedTaskStore R) A → Exec (State R Tx) A
  in_store = zoom (λ s. s.task_store) (λ c s. record s { task_store = c })

  unfoldable pub activate_device : ℕ → Bytes → Exec (State R Tx) (Unit {0})
  activate_device now device_id =
      modify
        (λ s. record s { device_last_activations = insert device_id now s.device_last_activations })

  unfoldable pub device_exists : Bytes → State R Tx → Bool
  device_exists device_id s = contains_key device_id s.devices

  unfoldable pub get_device_last_activation : ℕ → Bytes → Exec (State R Tx) ℕ
  unfolding or_now
  get_device_last_activation now device_id s =
      let t = or_now now (get device_id s.device_last_activations) in
      (ok t, record s { device_last_activations = insert device_id t s.device_last_activations })

  unfoldable pub set_task_last_update : ℕ → ℕ → Exec (State R Tx) (Unit {0})
  set_task_last_update now task_id =
      modify (λ s. record s { task_last_updates = insert task_id now s.task_last_updates })

  unfoldable pub get_task_last_update : ℕ → ℕ → Exec (State R Tx) ℕ
  unfolding or_now
  get_task_last_update now task_id s =
      let t = or_now now (get task_id s.task_last_updates) in
      (ok t, record s { task_last_updates = insert task_id t s.task_last_updates })

  unfoldable pub add_subscriber : Bytes → Tx → State R Tx → State R Tx
  add_subscriber device_id tx s = record s { subscribers = insert device_id tx s.subscribers }

  unfoldable pub remove_subscriber : Bytes → State R Tx → State R Tx
  remove_subscriber device_id s = record s { subscribers = remove device_id s.subscribers }

module _ {R Tx : Type 0} (v : Services R Tx) where
  abbrev pub database : {A : Type 0} → Exec R A → Exec (State R Tx) A
  database m = in_store (repository v.db m)

  -- One send of `send_updates`: the channels after it, and the devices whose channels fail.
  unfoldable pub send_to : Bytes → ProtoTask → Map Bytes Tx × List Bytes → Map Bytes Tx × List Bytes
  send_to device_id msg (subscribers, closed) = elim (get device_id subscribers) [
    | none ↦ (subscribers, closed)
    | some tx ↦
        let (sent, tx') = v.try_send tx msg in
        (insert device_id tx' subscribers, if sent then closed else closed ++ (device_id ∷ []))
  ]

  unfoldable pub send_participants :
      Task → List Participant → Map Bytes Tx × List Bytes → Map Bytes Tx × List Bytes
  unfolding send_to format
  send_participants t [] acc = acc
  send_participants t (p ∷ ps) acc =
      send_participants t ps (send_to p.device.id (format t (some p.device.id) none) acc)

  unfoldable pub send_observers :
      Task → List Bytes → Map Bytes Tx × List Bytes → Map Bytes Tx × List Bytes
  unfolding send_to format
  send_observers t [] acc = acc
  send_observers t (id ∷ ids) acc = send_observers t ids (send_to id (format t none none) acc)

  unfoldable pub send_updates : Task → Exec (State R Tx) (Unit {0})
  unfolding send_participants send_observers remove_all task_info
  send_updates t = modify λ s.
      let (sent, closed) = send_participants t (task_info t).participants (s.subscribers, []) in
      let (sent', closed') = send_observers t (task_info t).observers (sent, closed) in
      record s { subscribers = remove_all closed' sent' }

  -- `StateInner::add_device`
  unfoldable pub add_device : Bytes → String → DeviceKind → Bytes → Exec (State R Tx) Device
  add_device identifier name kind certificate = do
    d ← database (v.db.add_device identifier name kind certificate)
    modify (λ s. record s { devices = insert d.id d s.devices })
    pure d

  -- The loop of `get_formatted_tasks` and `get_formatted_active_device_tasks`.
  unfoldable pub format_all : Option Bytes → List ℕ → Exec (State R Tx) (List ProtoTask)
  unfolding get_task format
  format_all device_id [] = pure []
  format_all device_id (id ∷ ids) = do
    t ← in_store (get_task v.db id)
    rest ← format_all device_id ids
    pure (format t device_id none ∷ rest)

  unfoldable pub get_formatted_active_device_tasks : Bytes → Exec (State R Tx) (List ProtoTask)
  unfolding format_all
  get_formatted_active_device_tasks device_id = do
    ids ← database (v.db.get_active_device_tasks device_id)
    format_all (some device_id) ids

  unfoldable pub get_formatted_tasks : Exec (State R Tx) (List ProtoTask)
  unfolding format_all
  get_formatted_tasks = do ids ← database v.db.get_tasks; format_all none ids

  unfoldable pub get_formatted_task : ℕ → Option Bytes → Exec (State R Tx) ProtoTask
  unfolding get_task format task_info
  get_formatted_task id device_id = do
    t ← in_store (get_task v.db id)
    pure (format t device_id (some (task_info t).request))
