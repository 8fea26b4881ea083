-- ===== src/Protocols/Elgamal.antt =====
-- protocols/elgamal.rs: the key generation and the decryption of the protocol, as the server relays them.
use meesign_server.Base.{ℕ, ◌+◌, Option, nat_beq, ltb, Bytes}
use meesign_server.Base.Exec.{Exec, modify, lift_assert}
use meesign_server.Base.Int.{u16}
use meesign_server.Communicator.{
  Communicator, send_all, relay, get_final_message, get_protocol_indices,
}
use meesign_server.Communicator.Messages.{Crypto}
use meesign_server.Persistence.Enums.{ProtoProtocolType}

pub record ElgamalGroup : Type 0 where
  pub parties : ℕ
  pub threshold : ℕ
  pub round : ℕ

-- `ElgamalGroup::from_model`
unfoldable pub group_from_model : ℕ → ℕ → ℕ → ElgamalGroup
group_from_model parties threshold round = record {
  parties = parties;
  threshold = threshold;
  round = round;
}

pub record ElgamalDecrypt : Type 0 where
  pub round : ℕ

-- `ElgamalDecrypt::new`
unfoldable pub sign_new : ElgamalDecrypt
sign_new = record { round = 0 }

-- `ElgamalDecrypt::from_model`
unfoldable pub sign_from_model : ℕ → ElgamalDecrypt
sign_from_model round = record { round = round }

-- `get_type`
abbrev pub type : ProtoProtocolType
type = ProtoProtocolType.elgamal

module _ ⦃x : Crypto⦄ where
  -- `ElgamalGroup::last_round`
  unfoldable pub group_last_round : ElgamalGroup → ℕ
  group_last_round p = x.elgamal_keygen_rounds

  -- `ElgamalGroup::initialize`
  unfoldable pub group_initialize : ElgamalGroup × Communicator → ElgamalGroup × Communicator
  group_initialize (p, c) = (
    record p { round = 1 },
    send_all
        (λ idx. x.encode_group_init (record {
          protocol_type = type;
          index = idx;
          parties = p.parties;
          threshold = p.threshold;
        }))
        c,
  )

  -- `ElgamalGroup::advance`
  unfoldable pub group_advance : Exec (ElgamalGroup × Communicator) (Unit {0})
  unfolding group_last_round
  group_advance (p, c) =
      lift_assert (ltb p.round (group_last_round p))
        (modify (λ s. (record s.0 { round = u16 (s.0.round + 1) }, relay s.1))) (p, c)

  -- `ElgamalGroup::finalize`
  unfoldable pub group_finalize : Exec (ElgamalGroup × Communicator) (Option Bytes)
  unfolding group_last_round
  group_finalize (p, c) =
      lift_assert (nat_beq (group_last_round p) p.round)
        (λ s. (get_final_message s.1, (record s.0 { round = u16 (s.0.round + 1) }, s.1))) (p, c)

  -- `ElgamalDecrypt::last_round`
  unfoldable pub sign_last_round : ElgamalDecrypt → ℕ
  sign_last_round p = x.elgamal_decrypt_rounds

  -- `ElgamalDecrypt::initialize`
  unfoldable pub sign_initialize :
      Bytes → ElgamalDecrypt × Communicator → ElgamalDecrypt × Communicator
  sign_initialize content (p, c) = (
    record p { round = 1 },
    send_all
        (λ idx. x.encode_protocol_init (record {
          protocol_type = type;
          indices = get_protocol_indices c;
          index = idx;
          init_data = content;
        }))
        c,
  )

  -- `ElgamalDecrypt::advance`
  unfoldable pub sign_advance : Exec (ElgamalDecrypt × Communicator) (Unit {0})
  unfolding sign_last_round
  sign_advance (p, c) =
      lift_assert (ltb p.round (sign_last_round p))
        (modify (λ s. (record s.0 { round = u16 (s.0.round + 1) }, relay s.1))) (p, c)

  -- `ElgamalDecrypt::finalize`
  unfoldable pub sign_finalize : Exec (ElgamalDecrypt × Communicator) (Option Bytes)
  unfolding sign_last_round
  sign_finalize (p, c) =
      lift_assert (nat_beq (sign_last_round p) p.round)
        (λ s. (get_final_message s.1, (record s.0 { round = u16 (s.0.round + 1) }, s.1))) (p, c)
