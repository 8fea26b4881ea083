-- ===== src/Protocols/Musig2.antt =====
-- protocols/musig2.rs: the key generation and the signing of the protocol, as the server relays them.
use meesign_server.Base.{ℕ, ◌+◌, Option, nat_beq, ltb, Bytes}
use meesign_server.Base.Exec.{Exec, modify, lift_assert}
use meesign_server.Base.Int.{u16}
use meesign_server.Communicator.{
  Communicator, send_all, relay, get_final_message, get_protocol_indices,
}
use meesign_server.Communicator.Messages.{Crypto}
use meesign_server.Persistence.Enums.{ProtoProtocolType}

pub record Musig2Group : Type 0 where
  pub parties : ℕ
  pub round : ℕ

-- `Musig2Group::from_model`
unfoldable pub group_from_model : ℕ → ℕ → Musig2Group
group_from_model parties round = record { parties = parties; round = round }

pub record Musig2Sign : Type 0 where
  pub round : ℕ

-- `Musig2Sign::new`
unfoldable pub sign_new : Musig2Sign
sign_new = record { round = 0 }

-- `Musig2Sign::from_model`
unfoldable pub sign_from_model : ℕ → Musig2Sign
sign_from_model round = record { round = round }

-- `get_type`
abbrev pub type : ProtoProtocolType
type = ProtoProtocolType.musig2

module _ ⦃x : Crypto⦄ where
  -- `Musig2Group::last_round`
  unfoldable pub group_last_round : Musig2Group → ℕ
  group_last_round p = x.musig2_keygen_rounds

  -- `Musig2Group::initialize`
  unfoldable pub group_initialize : Musig2Group × Communicator → Musig2Group × Communicator
  group_initialize (p, c) = (
    record p { round = 1 },
    send_all
        (λ idx. x.encode_group_init (record {
          protocol_type = type;
          index = idx;
          parties = p.parties;
          threshold = p.parties;
        }))
        c,
  )

  -- `Musig2Group::advance`
  unfoldable pub group_advance : Exec (Musig2Group × Communicator) (Unit {0})
  unfolding group_last_round
  group_advance (p, c) =
      lift_assert (ltb p.round (group_last_round p))
        (modify (λ s. (record s.0 { round = u16 (s.0.round + 1) }, relay s.1))) (p, c)

  -- `Musig2Group::finalize`
  unfoldable pub group_finalize : Exec (Musig2Group × Communicator) (Option Bytes)
  unfolding group_last_round
  group_finalize (p, c) =
      lift_assert (nat_beq (group_last_round p) p.round)
        (λ s. (get_final_message s.1, (record s.0 { round = u16 (s.0.round + 1) }, s.1))) (p, c)

  -- `Musig2Sign::last_round`
  unfoldable pub sign_last_round : Musig2Sign → ℕ
  sign_last_round p = x.musig2_sign_rounds

  -- `Musig2Sign::initialize`
  unfoldable pub sign_initialize : Bytes → Musig2Sign × Communicator → Musig2Sign × Communicator
  sign_initialize content (p, c) = (
    record p { round = 1 },
    send_all
        (λ idx. x.encode_protocol_init (record {
          protocol_type = type;
          indices = get_protocol_indices c;
          index = idx;
          init_data = content;
        }))
        c,
  )

  -- `Musig2Sign::advance`
  unfoldable pub sign_advance : Exec (Musig2Sign × Communicator) (Unit {0})
  unfolding sign_last_round
  sign_advance (p, c) =
      lift_assert (ltb p.round (sign_last_round p))
        (modify (λ s. (record s.0 { round = u16 (s.0.round + 1) }, relay s.1))) (p, c)

  -- `Musig2Sign::finalize`
  unfoldable pub sign_finalize : Exec (Musig2Sign × Communicator) (Option Bytes)
  unfolding sign_last_round
  sign_finalize (p, c) =
      lift_assert (nat_beq (sign_last_round p) p.round)
        (λ s. (get_final_message s.1, (record s.0 { round = u16 (s.0.round + 1) }, s.1))) (p, c)
