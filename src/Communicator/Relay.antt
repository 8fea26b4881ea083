-- ===== src/Communicator/Relay.antt =====
-- What `relay` and `send_all` put into the outgoing buffers.
use meesign_server.Base.{
  ℕ, ◌≡◌, refl, ap, ◌∙◌, true, false, Option, none, some, List, [], ◌∷◌, map, Bytes, arith, any,
  any-sort, nat_beq, bytes_beq, nat_eq, inl, inr, if◌then◌else◌, Bool-cases, Option-cases,
}
use meesign_server.Base.All.{All, All-mono, All-sort, map_congr}
use meesign_server.Base.Map.{Map, get, keys, extend, insert, get-insert, IsMap}
use meesign_server.Communicator.{
  Communicator, identifier_to_indices, device_indices, protocol_index, get_protocol_indices,
  waiting_for, addressed, send_all, relay, relayed, broadcasts_to, unicasts_to, add_broadcast,
  add_unicast, get_messages, message_or_default,
}
use meesign_server.Communicator.Indices.{IsValid}
use meesign_server.Communicator.Messages.{ClientMessage, Crypto}
use meesign_server.Persistence.Enums.{ProtoProtocolType}
use meesign_server.Persistence.Models.{Device}

-- The broadcast of a message, if there are a message and a broadcast.
abbrev pub broadcast_of : Option ClientMessage → Option Bytes
broadcast_of none = none
broadcast_of (some msg) = msg.broadcast

-- The unicast of a message to an index.
abbrev pub unicast_of : ℕ → Option ClientMessage → Option Bytes
unicast_of idx none = none
unicast_of idx (some msg) = get idx msg.unicasts

abbrev or_else : Option Bytes → Option Bytes → Option Bytes
or_else none other = other
or_else (some b) other = some b

get-add_broadcast :
    (idx s j : ℕ) (msg : ClientMessage) (acc : Map ℕ Bytes)
    → get s (add_broadcast idx j msg acc) ≡ (
        if nat_beq s idx
        then get s acc
        else if nat_beq j s
        then or_else msg.broadcast (get s acc)
        else get s acc)
unfolding add_broadcast
get-add_broadcast idx s j msg acc = elim (Option-cases msg.broadcast) [
  | inl e ↦ ground arith
  | inr (b, e) ↦ ground (arith, get-insert j s b acc)
]

get-add_unicast :
    (idx s j : ℕ) (msg : ClientMessage) (acc : Map ℕ Bytes)
    → get s (add_unicast idx j msg acc) ≡ (
        if nat_beq s idx
        then get s acc
        else if nat_beq j s
        then or_else (get idx msg.unicasts) (get s acc)
        else get s acc)
unfolding add_unicast
get-add_unicast idx s j msg acc = elim (Option-cases (get idx msg.unicasts)) [
  | inl e ↦ ground arith
  | inr (u, e) ↦ ground (arith, get-insert j s u acc)
]

get-broadcasts_to :
    (idx s : ℕ) (input : Map ℕ ClientMessage) (acc : Map ℕ Bytes)
    → IsMap input
    → get s (broadcasts_to idx input acc)
      ≡ (if nat_beq s idx then get s acc else or_else (broadcast_of (get s input)) (get s acc))
unfolding broadcasts_to get
get-broadcasts_to idx s [] acc h = ground arith
get-broadcasts_to idx s ((j, msg) ∷ input) acc h = ground (
  arith,
  get-broadcasts_to idx s input (add_broadcast idx j msg acc) h.1,
  get-add_broadcast idx s j msg acc,
  h.0,
)

get-unicasts_to :
    (idx s : ℕ) (input : Map ℕ ClientMessage) (acc : Map ℕ Bytes)
    → IsMap input
    → get s (unicasts_to idx input acc)
      ≡ (if nat_beq s idx then get s acc else or_else (unicast_of idx (get s input)) (get s acc))
unfolding unicasts_to get
get-unicasts_to idx s [] acc h = ground arith
get-unicasts_to idx s ((j, msg) ∷ input) acc h = ground (
  arith,
  get-unicasts_to idx s input (add_unicast idx j msg acc) h.1,
  get-add_unicast idx s j msg acc,
  h.0,
)

addressed_absent :
    (f : ℕ → Bytes) (k : ℕ) (indices : List ℕ) (m : Map ℕ Bytes)
    → any (nat_beq k) indices ≡ false
    → get k (extend m (map (λ idx. (idx, f idx)) indices)) ≡ get k m
unfolding extend
addressed_absent f k [] m h = refl
addressed_absent f k (i ∷ indices) m h =
    ground (arith, addressed_absent f k indices (insert i (f i) m), get-insert i k (f i) m)

get-addressed_from :
    (f : ℕ → Bytes) (k : ℕ) (indices : List ℕ) (m : Map ℕ Bytes)
    → any (nat_beq k) indices ≡ true
    → get k (extend m (map (λ idx. (idx, f idx)) indices)) ≡ some (f k)
unfolding extend
get-addressed_from f k [] m h = cc
get-addressed_from f k (i ∷ indices) m h = elim (Bool-cases (any (nat_beq k) indices)) [
  | inl later ↦ get-addressed_from f k indices (insert i (f i) m) later
  | inr last ↦
      ground (arith, addressed_absent f k indices (insert i (f i) m), get-insert i k (f i) m)
]

-- Where no sender has two buffered messages, the message that is relayed to an index holds the
-- broadcasts of all other senders and what they sent to the index, each under its sender, and
-- nothing of its own.
pub relayed_content :
    (c : Communicator) (idx s : ℕ)
    → IsMap c.input
    → (get s (relayed c idx).broadcasts
        ≡ (if nat_beq s idx then none else broadcast_of (get s c.input)))
      × (get s (relayed c idx).unicasts
          ≡ (if nat_beq s idx then none else unicast_of idx (get s c.input)))
unfolding relayed get
relayed_content c idx s h = (
  ground (arith, get-broadcasts_to idx s c.input [] h),
  ground (arith, get-unicasts_to idx s c.input [] h),
)

device_index_listed :
    (p : ProtoProtocolType) (id : Bytes) (m : Map ℕ Device)
    → All (λ k. any (nat_beq k) (map (protocol_index p) (keys m)) ≡ true) (device_indices p id m)
unfolding device_indices
device_index_listed p id [] = tt
device_index_listed p id ((i, d) ∷ m) =
    let rest : All
        (λ k. any (nat_beq k) (protocol_index p i ∷ map (protocol_index p) (keys m)) ≡ true)
        (device_indices p id m) =
      All-mono _ (λ k h. ground arith) _ (device_index_listed p id m) in
    elim (Bool-cases (bytes_beq d.id id)) [
      | inl own ↦ rw own (ground (arith), rest)
      | inr other ↦ rw other rest
    ]

own_index_listed :
    (c : Communicator) (id : Bytes)
    → All (λ k. any (nat_beq k) (get_protocol_indices c) ≡ true) (identifier_to_indices c id)
unfolding get_protocol_indices identifier_to_indices
own_index_listed c id = All-sort _ _ (
    All-mono _ (λ k h. any-sort (nat_beq k) _ ∙ h) _
      (device_index_listed c.protocol_type id c.active_shares))

-- A message sent to all arrives: a device's work is what was addressed to its indices, in order.
pub get_messages-send_all :
    (f : ℕ → Bytes) (c : Communicator) (id : Bytes)
    → get_messages (send_all f c) id ≡ map f (identifier_to_indices c id)
unfolding get_messages message_or_default send_all identifier_to_indices addressed
get_messages-send_all f c id =
    map_congr _ _ f (λ k listed. ap message_or_default (get-addressed_from f k _ [] listed)) _
      (own_index_listed c id)

send_all-IsValid : (f : ℕ → Bytes) (c : Communicator) → IsValid c → IsValid (send_all f c)
unfolding send_all get
send_all-IsValid f c v = record {
  shares = v.shares;
  bounded = v.bounded;
  received = tt;
  expected = λ k h. cc;
}

-- After a message to all, the server waits for every device that has a share.
pub waiting_for-send_all :
    (f : ℕ → Bytes) (c : Communicator) (id : Bytes)
    → waiting_for (send_all f c) id ≡ any (λ idx. true) (identifier_to_indices c id)
unfolding waiting_for send_all identifier_to_indices get
waiting_for-send_all f c id = refl

-- A relay under the invariant of the communicator gives each device the messages for its indices,
-- in order, keeps the invariant, and opens a new round in which every device that has a share is
-- awaited.
pub relay_lem :
    ⦃x : Crypto⦄ (c : Communicator) (id : Bytes)
    → IsValid c
    → (get_messages (relay c) id
        ≡ map (λ idx. x.encode_server_message (relayed c idx)) (identifier_to_indices c id))
      × IsValid (relay c)
      × (waiting_for (relay c) id ≡ any (λ idx. true) (identifier_to_indices c id))
unfolding relay send_all
relay_lem c id v =
    (get_messages-send_all _ c id, send_all-IsValid _ c v, waiting_for-send_all _ c id)
