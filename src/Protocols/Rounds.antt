-- ===== src/Protocols/Rounds.antt =====
-- The eight implementations of `Protocol` are one round machine: round 0 is before the start,
-- `initialize` begins round 1, `advance` goes on to the next round and `finalize` ends the last.
use meesign_server.Base.{◌<◌, ℕ, ◌+◌, ◌≡◌, refl, Bytes, arith, ltb, nat_beq, if◌then◌else◌}
use meesign_server.Base.Exec.{ok, panic}
use meesign_server.Base.Int.{u16}
use meesign_server.Communicator.{Communicator, send_all, relay, get_final_message}
use meesign_server.Communicator.Messages.{Crypto}
use meesign_server.Protocols.{
  Protocol, gg18_group, gg18_sign, frost_group, frost_sign, musig2_group, musig2_sign,
  elgamal_group, elgamal_decrypt, round, last_round, get_type, initialize, advance, finalize,
}
use meesign_server.Protocols.Elgamal
use meesign_server.Protocols.Frost
use meesign_server.Protocols.Gg18
use meesign_server.Protocols.Musig2

-- The protocol in another round.
unfoldable pub with_round : ℕ → Protocol → Protocol
with_round r (gg18_group p) = gg18_group (record p { round = r })
with_round r (gg18_sign p) = gg18_sign (record p { round = r })
with_round r (frost_group p) = frost_group (record p { round = r })
with_round r (frost_sign p) = frost_sign (record p { round = r })
with_round r (musig2_group p) = musig2_group (record p { round = r })
with_round r (musig2_sign p) = musig2_sign (record p { round = r })
with_round r (elgamal_group p) = elgamal_group (record p { round = r })
with_round r (elgamal_decrypt p) = elgamal_decrypt (record p { round = r })

pub round-with_round : (r : ℕ) (p : Protocol) → round (with_round r p) ≡ r
unfolding round with_round
round-with_round r (gg18_group p) = refl
round-with_round r _ = refl

pub get_type-with_round : (r : ℕ) (p : Protocol) → get_type (with_round r p) ≡ get_type p
unfolding get_type with_round
get_type-with_round r (gg18_group p) = refl
get_type-with_round r _ = refl

module _ ⦃x : Crypto⦄ where
  pub last_round-with_round : (r : ℕ) (p : Protocol) → last_round (with_round r p) ≡ last_round p
  unfolding last_round with_round
  last_round-with_round r (gg18_group p) = refl
  last_round-with_round r _ = refl

  pub initialize_lem :
      (content : Bytes) (p : Protocol) (c : Communicator)
      → (f : ℕ → Bytes) × (initialize content p c ≡ (with_round 1 p, send_all f c))
  unfolding initialize with_round Gg18.group_initialize Gg18.sign_initialize Frost.group_initialize
      Frost.sign_initialize Musig2.group_initialize Musig2.sign_initialize Elgamal.group_initialize
      Elgamal.sign_initialize
  initialize_lem content (gg18_group p) c = (_, refl)
  initialize_lem content _ c = (_, refl)

  pub advance_lem :
      (p : Protocol) (c : Communicator)
      → advance p c ≡ (
          if ltb (round p) (last_round p)
          then (ok tt, (with_round (u16 (round p + 1)) p, relay c))
          else (panic, (p, c)))
  unfolding advance with_round round last_round Gg18.group_advance Gg18.sign_advance
      Frost.group_advance Frost.sign_advance Musig2.group_advance Musig2.sign_advance
      Elgamal.group_advance Elgamal.sign_advance
  advance_lem (gg18_group p) c = ground arith
  advance_lem _ c = ground arith

  pub finalize_lem :
      (p : Protocol) (c : Communicator)
      → finalize p c ≡ (
          if nat_beq (last_round p) (round p)
          then (get_final_message c, (with_round (u16 (round p + 1)) p, c))
          else (panic, (p, c)))
  unfolding finalize with_round round last_round Gg18.group_finalize Gg18.sign_finalize
      Frost.group_finalize Frost.sign_finalize Musig2.group_finalize Musig2.sign_finalize
      Elgamal.group_finalize Elgamal.sign_finalize
  finalize_lem (gg18_group p) c = ground arith
  finalize_lem _ c = ground arith

  pub advance_before_last :
      (p : Protocol) (c : Communicator)
      → round p < last_round p
      → last_round p < 65535
      → advance p c ≡ (ok tt, (with_round (round p + 1) p, relay c))
  advance_before_last p c h short = ground (arith, advance_lem p c)

  pub finalize_last :
      (p : Protocol) (c : Communicator)
      → round p ≡ last_round p
      → last_round p < 65535
      → finalize p c ≡ (get_final_message c, (with_round (round p + 1) p, c))
  finalize_last p c h short = ground (arith, finalize_lem p c)
