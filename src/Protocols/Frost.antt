-- ===== src/Protocols/Frost.antt =====
-- protocols/frost.rs: the key generation and the signing of the protocol, as the server relays them.
use meesign_server.Base.{ℕ, ◌+◌, Option, nat_beq, ltb, Bytes}
use meesign_server.Base.Exec.{Exec, modify, lift_assert}
use meesign_server.Base.Int.{u16}
use meesign_server.Communicator.{
  Communicator, send_all, relay, get_final_message, get_protocol_indices,
}
use meesign_server.Communicator.Messages.{Crypto}
use meesign_server.Persistence.Enums.{ProtoProtocolType}

pub record FrostGroup : Type 0 where
  pub parties : ℕ
  pub threshold : ℕ
  pub round : ℕ

-- `FrostGroup::from_model`
unfoldable pub group_from_model : ℕ → ℕ → ℕ → FrostGroup
group_from_model parties threshold round = record {
  parties = parties;
  threshold = threshold;
  round = round;
}

pub record FrostSign : Type 0 where
  pub round : ℕ

-- `FrostSign::new`
unfoldable pub sign_new : FrostSign
sign_new = record { round = 0 }

-- `FrostSign::from_model`
unfoldable pub sign_from_model : ℕ → FrostSign
sign_from_model round = record { round = round }

-- `get_type`
abbrev pub type : ProtoProtocolType
type = ProtoProtocolType.frost

module _ ⦃x : Crypto⦄ where
  -- `FrostGroup::last_round`
  unfoldable pub group_last_round : FrostGroup → ℕ
  group_last_round p = x.frost_keygen_rounds

  -- `FrostGroup::initialize`
  unfoldable pub group_initialize : FrostGroup × Communicator → FrostGroup × Communicator
  group_initialize (p, c) = (
    record p { round = 1 },
    send_all
        (λ idx. x.encode_group_init (record {
          protocol_type = type;
          index = idx;
          parties = p.parties;
          threshold = p.threshold;
        }))
        c,
  )

  -- `FrostGroup::advance`
  unfoldable pub group_advance : Exec (FrostGroup × Communicator) (Unit {0})
  unfolding group_last_round
  group_advance (p, c) =
      lift_assert (ltb p.round (group_last_round p))
        (modify (λ s. (record s.0 { round = u16 (s.0.round + 1) }, relay s.1))) (p, c)

  -- `FrostGroup::finalize`
  unfoldable pub group_finalize : Exec (FrostGroup × Communicator) (Option Bytes)
  unfolding group_last_round
  group_finalize (p, c) =
      lift_assert (nat_beq (group_last_round p) p.round)
        (λ s. (get_final_message s.1, (record s.0 { round = u16 (s.0.round + 1) }, s.1))) (p, c)

  -- `FrostSign::last_round`
  unfoldable pub sign_last_round : FrostSign → ℕ
  sign_last_round p = x.frost_sign_rounds

  -- `FrostSign::initialize`
  unfoldable pub sign_initialize : Bytes → FrostSign × Communicator → FrostSign × Communicator
  sign_initialize content (p, c) = (
    record p { round = 1 },
    send_all
        (λ idx. x.encode_protocol_init (record {
          protocol_type = type;
          indices = get_protocol_indices c;
          index = idx;
          init_data = content;
        }))
        c,
  )

  -- `FrostSign::advance`
  unfoldable pub sign_advance : Exec (FrostSign × Communicator) (Unit {0})
  unfolding sign_last_round
  sign_advance (p, c) =
      lift_assert (ltb p.round (sign_last_round p))
        (modify (λ s. (record s.0 { round = u16 (s.0.round + 1) }, relay s.1))) (p, c)

  -- `FrostSign::finalize`
  unfoldable pub sign_finalize : Exec (FrostSign × Communicator) (Option Bytes)
  unfolding sign_last_round
  sign_finalize (p, c) =
      lift_assert (nat_beq (sign_last_round p) p.round)
        (λ s. (get_final_message s.1, (record s.0 { round = u16 (s.0.round + 1) }, s.1))) (p, c)
