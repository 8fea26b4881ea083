-- ===== src/Communicator.antt =====
-- communicator.rs: the buffers of a running task. The proofs are in the modules below.
pub mod Messages
pub mod Indices
pub mod Owners
pub mod Receive
pub mod Relay
pub mod Final
pub mod Rounds
use Messages.{ClientMessage, ServerMessage, Crypto}
use meesign_server.Base.{
  ℕ, suc, ◌+◌, ◌-◌, ◌≤◌, ◌<◌, Bool, true, false, not, ◌&&◌, ◌||◌, Option, none, some, List, [], ◌∷◌,
  map, Bytes, if◌then◌else◌, leb, ltb, nat_beq, bytes_beq, length, any, keep, zip, sort, is_some,
  Eq, nat_eq, nat_beq_iff,
}
use meesign_server.Base.Exec.{Exec, Outcome, ok, panic, unwrap, pure, abort}
use meesign_server.Base.Int.{u32}
use meesign_server.Base.Map.{Map, get, insert, extend, keys, contains_key}
use meesign_server.Persistence.Enums.{ProtoProtocolType}
use meesign_server.Persistence.Models.{Device}

pub record Communicator : Type 0 where
  pub threshold : ℕ
  pub active_shares : Map ℕ Device
  pub input : Map ℕ ClientMessage
  pub output : Map ℕ Bytes
  pub protocol_type : ProtoProtocolType

-- `ProtocolType::index_offset` of main.rs
unfoldable pub index_offset : ProtoProtocolType → ℕ
index_offset ProtoProtocolType.frost = 1
index_offset _ = 0

-- `Communicator::new`: panics on fewer than two shares and on a threshold above their number.
unfoldable pub new : ℕ → ProtoProtocolType → Map ℕ Device → Outcome Communicator
new threshold protocol_type active_shares =
    if ltb 1 (length active_shares) && leb threshold (u32 (length active_shares))
    then ok (record {
      threshold = threshold;
      active_shares = active_shares;
      input = [];
      output = [];
      protocol_type = protocol_type;
    })
    else panic

unfoldable pub clear_input : Communicator → Communicator
clear_input c = record c { input = [] }

-- An index of an active share as the protocol counts it.
unfoldable pub protocol_index : ProtoProtocolType → ℕ → ℕ
unfolding index_offset
protocol_index p i = u32 (i + index_offset p)

unfoldable pub get_protocol_indices : Communicator → List ℕ
get_protocol_indices c = sort (map (protocol_index c.protocol_type) (keys c.active_shares))

-- The protocol indices of the entries whose device has the identifier, in the map's order.
unfoldable pub device_indices : ProtoProtocolType → Bytes → Map ℕ Device → List ℕ
device_indices p id [] = []
device_indices p id ((i, d) ∷ m) =
    let rest = device_indices p id m in
    if bytes_beq d.id id then protocol_index p i ∷ rest else rest

unfoldable pub identifier_to_indices : Communicator → Bytes → List ℕ
identifier_to_indices c id = sort (device_indices c.protocol_type id c.active_shares)

-- The assertion of `receive_messages` on one message. `self.threshold as usize - 1` is an `usize`.
unfoldable pub message_fits : ℕ → ClientMessage → Bool
message_fits threshold msg =
    is_some msg.broadcast
    || (if nat_beq threshold 0 then false else nat_beq (length msg.unicasts) (threshold - 1))

unfoldable pub all_fit : ℕ → List ClientMessage → Bool
unfolding message_fits
all_fit threshold [] = true
all_fit threshold (msg ∷ msgs) = message_fits threshold msg && all_fit threshold msgs

unfoldable pub receive_messages : Bytes → List ClientMessage → Exec Communicator Bool
receive_messages sender_id messages c =
    let indices = identifier_to_indices c sender_id in
    if nat_beq (length messages) 0 || not (nat_beq (length indices) (length messages))
    then (ok false, c)
    else (if all_fit c.threshold messages
        then (ok true, record c { input = extend c.input (zip indices messages) })
        else (panic, c))

unfoldable pub waiting_for : Communicator → Bytes → Bool
waiting_for c device_id =
    any (λ idx. not (contains_key idx c.input)) (identifier_to_indices c device_id)

-- The `insert` of a sender's broadcast, if it has one and is not the recipient's own.
unfoldable pub add_broadcast : ℕ → ℕ → ClientMessage → Map ℕ Bytes → Map ℕ Bytes
add_broadcast idx sender msg acc =
    if nat_beq sender idx
    then acc
    else (elim msg.broadcast [ none ↦ acc | some b ↦ insert sender b acc ])

-- The `insert` of a sender's unicast to the recipient.
unfoldable pub add_unicast : ℕ → ℕ → ClientMessage → Map ℕ Bytes → Map ℕ Bytes
add_unicast idx sender msg acc =
    if nat_beq sender idx
    then acc
    else (elim (get idx msg.unicasts) [ none ↦ acc | some u ↦ insert sender u acc ])

-- What the other senders broadcast, by sender.
unfoldable pub broadcasts_to : ℕ → Map ℕ ClientMessage → Map ℕ Bytes → Map ℕ Bytes
broadcasts_to idx [] acc = acc
broadcasts_to idx ((sender, msg) ∷ input) acc =
    broadcasts_to idx input (add_broadcast idx sender msg acc)

-- What the other senders sent to the index, by sender.
unfoldable pub unicasts_to : ℕ → Map ℕ ClientMessage → Map ℕ Bytes → Map ℕ Bytes
unicasts_to idx [] acc = acc
unicasts_to idx ((sender, msg) ∷ input) acc = unicasts_to idx input (add_unicast idx sender msg acc)

-- The message that `relay` sends to an index.
unfoldable pub relayed : Communicator → ℕ → ServerMessage
relayed c idx = record {
  protocol_type = c.protocol_type;
  unicasts = unicasts_to idx c.input [];
  broadcasts = broadcasts_to idx c.input [];
}

-- The outgoing buffer with one message for each protocol index.
unfoldable pub addressed : (ℕ → Bytes) → List ℕ → Map ℕ Bytes
addressed f indices = extend [] (map (λ idx. (idx, f idx)) indices)

unfoldable pub send_all : (ℕ → Bytes) → Communicator → Communicator
unfolding clear_input
send_all f c = clear_input (record c { output = addressed f (get_protocol_indices c) })

unfoldable pub round_received : Communicator → Bool
round_received c = nat_beq (length c.input) (length c.active_shares)

-- `unwrap_or_default`
unfoldable pub message_or_default : Option Bytes → Bytes
message_or_default none = []
message_or_default (some m) = m

unfoldable pub get_messages : Communicator → Bytes → List Bytes
get_messages c device_id =
    map (λ idx. message_or_default (get idx c.output)) (identifier_to_indices c device_id)

module _ ⦃x : Crypto⦄ where
  unfoldable pub relay : Communicator → Communicator
  unfolding clear_input
  relay c = clear_input (record c {
    output = addressed (λ idx. x.encode_server_message (relayed c idx)) (get_protocol_indices c);
  })

  -- The verified broadcast of one sender: `none` where the signature is wrong, a panic where there
  -- is no broadcast or no such share.
  unfoldable pub verified : Communicator → ℕ → ClientMessage → Outcome (Option Bytes)
  verified c sender msg =
      elim (get (u32 (sender + 4294967296 - index_offset c.protocol_type)) c.active_shares) [
        | none ↦ panic
        | some d ↦ elim msg.broadcast [
          | none ↦ panic
          | some b ↦ ok (x.verify_broadcast b d.certificate)
        ]
      ]

  -- The loop of `get_final_message`, with the message found so far.
  unfoldable pub final_message :
      Communicator → Map ℕ ClientMessage → Option Bytes → Outcome (Option Bytes)
  final_message c [] found = ok found
  final_message c ((sender, msg) ∷ input) none = elim (verified c sender msg) [
    | ok (some m) ↦ final_message c input (some m)
    | other ↦ other
  ]
  final_message c ((sender, msg) ∷ input) (some prev) = elim (verified c sender msg) [
    | ok (some m) ↦ elim (bytes_beq prev m) [
      | true ↦ final_message c input (some m)
      | false ↦ panic
    ]
    | other ↦ other
  ]

  unfoldable pub get_final_message : Communicator → Outcome (Option Bytes)
  unfolding final_message
  get_final_message c = final_message c c.input none
