-- ===== src/Interfaces/Access.antt =====
-- Which requests interfaces/grpc.rs turns away.
use meesign_server.Base.{◌≡◌, refl, String, Bool, true, false, none, some, Bytes, bytes_eq}
use meesign_server.Communicator.Messages.{Crypto}
use meesign_server.Interfaces.{Web, refused, unauthenticated}
use meesign_server.Interfaces.Auth.{RequestMeta, extract_device_id, check_client_auth, check_device}
use meesign_server.Interfaces.Grpc.{Surroundings}
use meesign_server.Interfaces.Grpc
use meesign_server.Interfaces.Messages.{Rpc}
use meesign_server.Interfaces.Service.{serve}
use meesign_server.State.{State, Services, device_exists}

-- The requests that are made for a device.
abbrev pub needs_device : Rpc → Bool
needs_device Rpc.subscribe_updates = true
needs_device (Rpc.update_task id contents attempt) = true
needs_device (Rpc.decide_task id accept) = true
needs_device (Rpc.acknowledge_task id) = true
needs_device _ = false

-- The request is from a device that is not registered, or from none and made for one.
pub data Unwelcome {R Tx : Type 0} (w : Web Tx) (meta : RequestMeta) (r : Rpc) (s : State R Tx)
    : Type 0 where
  unknown :
      (d : Bytes)
      → extract_device_id w meta ≡ some d
      → device_exists d s ≡ false
      → Unwelcome w meta r s
  anonymous : extract_device_id w meta ≡ none → needs_device r ≡ true → Unwelcome w meta r s

module _ {R Tx : Type 0} ⦃x : Crypto⦄ (w : Web Tx) (v : Services R Tx) (e : Surroundings Tx)
    (meta : RequestMeta) (s : State R Tx) where
  unknown_check :
      (d : Bytes) (required : Bool)
      → extract_device_id w meta ≡ some d
      → device_exists d s ≡ false
      → check_client_auth w meta required s ≡ (refused (unauthenticated "Unknown device"), s)
  unfolding check_client_auth check_device
  unknown_check d required from missing = rw (from, check_device, missing) refl

  anonymous_check :
      extract_device_id w meta ≡ none
      → check_client_auth w meta true s ≡ (refused (unauthenticated "Authentication required"), s)
  unfolding check_client_auth check_device
  anonymous_check from = rw from refl

  unknown_refused :
      (d : Bytes) (r : Rpc)
      → extract_device_id w meta ≡ some d
      → device_exists d s ≡ false
      → serve w v e meta r s ≡ (refused (unauthenticated "Unknown device"), s)
  unfolding serve Grpc.get_server_info Grpc.get_devices Grpc.subscribe_updates Grpc.register
      Grpc.sign Grpc.decrypt Grpc.group Grpc.get_task Grpc.update_task Grpc.get_tasks
      Grpc.get_groups Grpc.log Grpc.decide_task Grpc.acknowledge_task
  unknown_refused d Rpc.get_server_info from missing = rw (unknown_check d false from missing) refl
  unknown_refused d r from missing = rw (unknown_check d (needs_device r) from missing) refl

  anonymous_refused :
      (r : Rpc)
      → extract_device_id w meta ≡ none
      → needs_device r ≡ true
      → serve w v e meta r s ≡ (refused (unauthenticated "Authentication required"), s)
  unfolding serve Grpc.get_server_info Grpc.get_devices Grpc.subscribe_updates Grpc.register
      Grpc.sign Grpc.decrypt Grpc.group Grpc.get_task Grpc.update_task Grpc.get_tasks
      Grpc.get_groups Grpc.log Grpc.decide_task Grpc.acknowledge_task
  anonymous_refused Rpc.subscribe_updates from needed = rw (anonymous_check from) refl
  anonymous_refused (Rpc.update_task id contents attempt) from needed =
      rw (anonymous_check from) refl
  anonymous_refused (Rpc.decide_task id accept) from needed = rw (anonymous_check from) refl
  anonymous_refused (Rpc.acknowledge_task id) from needed = rw (anonymous_check from) refl
  anonymous_refused _ from needed = absurd (cc)

  -- A request from a device that is not registered, and a request from no device that is made for
  -- one (to subscribe, to send messages, to vote, to acknowledge), is answered with the status
  -- `unauthenticated` and leaves the state as it was: neither a cached task, nor an activation,
  -- nor the database is written.
  pub unknown_devices_refused :
      (r : Rpc)
      → Unwelcome w meta r s
      → (text : String) × (serve w v e meta r s ≡ (refused (unauthenticated text), s))
  unknown_devices_refused r (unknown d from missing) =
      ("Unknown device", unknown_refused d r from missing)
  unknown_devices_refused r (anonymous from needed) =
      ("Authentication required", anonymous_refused r from needed)
