-- ===== src/Protocols.antt =====
-- protocols/mod.rs: the trait `Protocol` over its eight implementations, and the choice of one.
pub mod Gg18
pub mod Frost
pub mod Musig2
pub mod Elgamal
pub mod Rounds
use Elgamal.{ElgamalGroup, ElgamalDecrypt}
use Frost.{FrostGroup, FrostSign}
use Gg18.{Gg18Group, Gg18Sign}
use Musig2.{Musig2Group, Musig2Sign}
use meesign_server.Base.{
  ℕ, zero, suc, ◌+◌, ◌≤◌, Bool, true, false, ◌&&◌, Option, String, nat_beq, leb, ltb, Bytes,
}
use meesign_server.Base.Exec.{Exec, Outcome, Error, ok, err, general_protocol_error}
use meesign_server.Communicator.{Communicator}
use meesign_server.Communicator.Messages.{Crypto}
use meesign_server.Persistence.Enums.{ProtoProtocolType, ProtoKeyType}

-- `Box<dyn Protocol>`
pub data Protocol : Type 0 where
  gg18_group : Gg18Group → Protocol
  gg18_sign : Gg18Sign → Protocol
  frost_group : FrostGroup → Protocol
  frost_sign : FrostSign → Protocol
  musig2_group : Musig2Group → Protocol
  musig2_sign : Musig2Sign → Protocol
  elgamal_group : ElgamalGroup → Protocol
  elgamal_decrypt : ElgamalDecrypt → Protocol

-- `ProtocolType::check_threshold`
unfoldable pub check_threshold : ProtoProtocolType → ℕ → ℕ → Bool
check_threshold ProtoProtocolType.musig2 threshold group_size =
    leb 2 threshold && nat_beq threshold group_size
check_threshold _ threshold group_size = leb 2 threshold && leb threshold group_size

-- `Protocol::round`
unfoldable pub round : Protocol → ℕ
round (gg18_group p) = p.round
round (gg18_sign p) = p.round
round (frost_group p) = p.round
round (frost_sign p) = p.round
round (musig2_group p) = p.round
round (musig2_sign p) = p.round
round (elgamal_group p) = p.round
round (elgamal_decrypt p) = p.round

-- `Protocol::get_type`
unfoldable pub get_type : Protocol → ProtoProtocolType
get_type (gg18_group p) = Gg18.type
get_type (gg18_sign p) = Gg18.type
get_type (frost_group p) = Frost.type
get_type (frost_sign p) = Frost.type
get_type (musig2_group p) = Musig2.type
get_type (musig2_sign p) = Musig2.type
get_type (elgamal_group p) = Elgamal.type
get_type (elgamal_decrypt p) = Elgamal.type

-- A method of an implementation as one of the boxed protocol.
abbrev boxed :
    {P A : Type 0}
    → (P → Protocol)
    → Exec (P × Communicator) A
    → P
    → Communicator
    → Outcome A × (Protocol × Communicator)
boxed box m p c = let (r, s) = m (p, c) in (r, (box s.0, s.1))

abbrev boxed_state :
    {P : Type 0}
    → (P → Protocol)
    → (P × Communicator → P × Communicator)
    → P
    → Communicator
    → Protocol × Communicator
boxed_state box m p c = let (p', c') = m (p, c) in (box p', c')

module _ ⦃x : Crypto⦄ where
  -- `Protocol::last_round`
  unfoldable pub last_round : Protocol → ℕ
  unfolding Gg18.group_last_round Gg18.sign_last_round Frost.group_last_round Frost.sign_last_round
      Musig2.group_last_round Musig2.sign_last_round Elgamal.group_last_round
      Elgamal.sign_last_round
  last_round (gg18_group p) = Gg18.group_last_round p
  last_round (gg18_sign p) = Gg18.sign_last_round p
  last_round (frost_group p) = Frost.group_last_round p
  last_round (frost_sign p) = Frost.sign_last_round p
  last_round (musig2_group p) = Musig2.group_last_round p
  last_round (musig2_sign p) = Musig2.sign_last_round p
  last_round (elgamal_group p) = Elgamal.group_last_round p
  last_round (elgamal_decrypt p) = Elgamal.sign_last_round p

  -- `Protocol::initialize`
  unfoldable pub initialize : Bytes → Protocol → Communicator → Protocol × Communicator
  initialize content (gg18_group p) c = boxed_state gg18_group Gg18.group_initialize p c
  initialize content (gg18_sign p) c = boxed_state gg18_sign (Gg18.sign_initialize content) p c
  initialize content (frost_group p) c = boxed_state frost_group Frost.group_initialize p c
  initialize content (frost_sign p) c = boxed_state frost_sign (Frost.sign_initialize content) p c
  initialize content (musig2_group p) c = boxed_state musig2_group Musig2.group_initialize p c
  initialize content (musig2_sign p) c =
      boxed_state musig2_sign (Musig2.sign_initialize content) p c
  initialize content (elgamal_group p) c = boxed_state elgamal_group Elgamal.group_initialize p c
  initialize content (elgamal_decrypt p) c =
      boxed_state elgamal_decrypt (Elgamal.sign_initialize content) p c

  -- `Protocol::advance`
  unfoldable pub advance : Protocol → Communicator → Outcome (Unit {0}) × (Protocol × Communicator)
  advance (gg18_group p) c = boxed gg18_group Gg18.group_advance p c
  advance (gg18_sign p) c = boxed gg18_sign Gg18.sign_advance p c
  advance (frost_group p) c = boxed frost_group Frost.group_advance p c
  advance (frost_sign p) c = boxed frost_sign Frost.sign_advance p c
  advance (musig2_group p) c = boxed musig2_group Musig2.group_advance p c
  advance (musig2_sign p) c = boxed musig2_sign Musig2.sign_advance p c
  advance (elgamal_group p) c = boxed elgamal_group Elgamal.group_advance p c
  advance (elgamal_decrypt p) c = boxed elgamal_decrypt Elgamal.sign_advance p c

  -- `Protocol::finalize`
  unfoldable pub finalize :
      Protocol → Communicator → Outcome (Option Bytes) × (Protocol × Communicator)
  finalize (gg18_group p) c = boxed gg18_group Gg18.group_finalize p c
  finalize (gg18_sign p) c = boxed gg18_sign Gg18.sign_finalize p c
  finalize (frost_group p) c = boxed frost_group Frost.group_finalize p c
  finalize (frost_sign p) c = boxed frost_sign Frost.sign_finalize p c
  finalize (musig2_group p) c = boxed musig2_group Musig2.group_finalize p c
  finalize (musig2_sign p) c = boxed musig2_sign Musig2.sign_finalize p c
  finalize (elgamal_group p) c = boxed elgamal_group Elgamal.group_finalize p c
  finalize (elgamal_decrypt p) c = boxed elgamal_decrypt Elgamal.sign_finalize p c

abbrev unsupported : Error
unsupported = general_protocol_error "Unsupported protocol type and key type combination"

-- `create_keygen_protocol`: a group protocol for the kinds of keys that it supports.
unfoldable pub create_keygen_protocol :
    ProtoProtocolType → ProtoKeyType → ℕ → ℕ → ℕ → Outcome Protocol
unfolding Gg18.group_from_model Frost.group_from_model Musig2.group_from_model
    Elgamal.group_from_model
create_keygen_protocol ProtoProtocolType.gg18 ProtoKeyType.sign_pdf total threshold round =
    ok (gg18_group (Gg18.group_from_model total threshold round))
create_keygen_protocol ProtoProtocolType.gg18 ProtoKeyType.sign_challenge total threshold round =
    ok (gg18_group (Gg18.group_from_model total threshold round))
create_keygen_protocol ProtoProtocolType.frost ProtoKeyType.sign_challenge total threshold round =
    ok (frost_group (Frost.group_from_model total threshold round))
create_keygen_protocol ProtoProtocolType.musig2 ProtoKeyType.sign_challenge total threshold round =
    ok (musig2_group (Musig2.group_from_model total round))
create_keygen_protocol ProtoProtocolType.elgamal ProtoKeyType.decrypt total threshold round =
    ok (elgamal_group (Elgamal.group_from_model total threshold round))
create_keygen_protocol _ _ total threshold round = err unsupported

-- `create_threshold_protocol`
unfoldable pub create_threshold_protocol : ProtoProtocolType → ProtoKeyType → ℕ → Outcome Protocol
unfolding Gg18.sign_from_model Frost.sign_from_model Musig2.sign_from_model Elgamal.sign_from_model
create_threshold_protocol ProtoProtocolType.gg18 ProtoKeyType.sign_pdf round =
    ok (gg18_sign (Gg18.sign_from_model round))
create_threshold_protocol ProtoProtocolType.gg18 ProtoKeyType.sign_challenge round =
    ok (gg18_sign (Gg18.sign_from_model round))
create_threshold_protocol ProtoProtocolType.frost ProtoKeyType.sign_challenge round =
    ok (frost_sign (Frost.sign_from_model round))
create_threshold_protocol ProtoProtocolType.musig2 ProtoKeyType.sign_challenge round =
    ok (musig2_sign (Musig2.sign_from_model round))
create_threshold_protocol ProtoProtocolType.elgamal ProtoKeyType.decrypt round =
    ok (elgamal_decrypt (Elgamal.sign_from_model round))
create_threshold_protocol _ _ round = err unsupported
