-- ===== src/Protocols/Gg18.antt =====
-- protocols/gg18.rs: the key generation and the signing of the protocol, as the server relays them.
use meesign_server.Base.{ℕ, ◌+◌, Option, nat_beq, ltb, Bytes}
use meesign_server.Base.Exec.{Exec, modify, lift_assert}
use meesign_server.Base.Int.{u16}
use meesign_server.Communicator.{
  Communicator, send_all, relay, get_final_message, get_protocol_indices,
}
use meesign_server.Communicator.Messages.{Crypto}
use meesign_server.Persistence.Enums.{ProtoProtocolType}

pub record Gg18Group : Type 0 where
  pub parties : ℕ
  pub threshold : ℕ
  pub round : ℕ

-- `Gg18Group::from_model`
unfoldable pub group_from_model : ℕ → ℕ → ℕ → Gg18Group
group_from_model parties threshold round = record {
  parties = parties;
  threshold = threshold;
  round = round;
}

pub record Gg18Sign : Type 0 where
  pub round : ℕ

-- `Gg18Sign::new`
unfoldable pub sign_new : Gg18Sign
sign_new = record { round = 0 }

-- `Gg18Sign::from_model`
unfoldable pub sign_from_model : ℕ → Gg18Sign
sign_from_model round = record { round = round }

-- `get_type`
abbrev pub type : ProtoProtocolType
type = ProtoProtocolType.gg18

module _ ⦃x : Crypto⦄ where
  -- `Gg18Group::last_round`
  unfoldable pub group_last_round : Gg18Group → ℕ
  group_last_round p = x.gg18_keygen_rounds

  -- `Gg18Group::initialize`
  unfoldable pub group_initialize : Gg18Group × Communicator → Gg18Group × Communicator
  group_initialize (p, c) = (
    record p { round = 1 },
    send_all
        (λ idx. x.encode_group_init (record {
          protocol_type = type;
          index = idx;
          parties = p.parties;
          threshold = p.threshold;
        }))
        c,
  )

  -- `Gg18Group::advance`
  unfoldable pub group_advance : Exec (Gg18Group × Communicator) (Unit {0})
  unfolding group_last_round
  group_advance (p, c) =
      lift_assert (ltb p.round (group_last_round p))
        (modify (λ s. (record s.0 { round = u16 (s.0.round + 1) }, relay s.1))) (p, c)

  -- `Gg18Group::finalize`
  unfoldable pub group_finalize : Exec (Gg18Group × Communicator) (Option Bytes)
  unfolding group_last_round
  group_finalize (p, c) =
      lift_assert (nat_beq (group_last_round p) p.round)
        (λ s. (get_final_message s.1, (record s.0 { round = u16 (s.0.round + 1) }, s.1))) (p, c)

  -- `Gg18Sign::last_round`
  unfoldable pub sign_last_round : Gg18Sign → ℕ
  sign_last_round p = x.gg18_sign_rounds

  -- `Gg18Sign::initialize`
  unfoldable pub sign_initialize : Bytes → Gg18Sign × Communicator → Gg18Sign × Communicator
  sign_initialize content (p, c) = (
    record p { round = 1 },
    send_all
        (λ idx. x.encode_protocol_init (record {
          protocol_type = type;
          indices = get_protocol_indices c;
          index = idx;
          init_data = content;
        }))
        c,
  )

  -- `Gg18Sign::advance`
  unfoldable pub sign_advance : Exec (Gg18Sign × Communicator) (Unit {0})
  unfolding sign_last_round
  sign_advance (p, c) =
      lift_assert (ltb p.round (sign_last_round p))
        (modify (λ s. (record s.0 { round = u16 (s.0.round + 1) }, relay s.1))) (p, c)

  -- `Gg18Sign::finalize`
  unfoldable pub sign_finalize : Exec (Gg18Sign × Communicator) (Option Bytes)
  unfolding sign_last_round
  sign_finalize (p, c) =
      lift_assert (nat_beq (sign_last_round p) p.round)
        (λ s. (get_final_message s.1, (record s.0 { round = u16 (s.0.round + 1) }, s.1))) (p, c)
