-- ===== src/Communicator/Rounds.antt =====
-- When a round is complete, and that the operations keep the invariant.
use meesign_server.Base.{
  Bool-cases, ◌≡◌, refl, ap, sym, ◌∙◌, true, false, not, Bytes, arith, nat_beq_iff, nat_eq,
  Option-cases, inl, inr, ◌↔◌,
}
use meesign_server.Base.Map.{get, contains_key, IsMap, Covers, Covers-length-le, Covers-back}
use meesign_server.Communicator.{Communicator, waiting_for, round_received}
use meesign_server.Communicator.Indices.{
  IsValid, indexed, length-indexed, indexed-IsMap, any-identifier_to_indices, none_of_device,
  none_of_all,
}

module _ (c : Communicator) (v : IsValid c) where
  indexed_shares-IsMap : IsMap (indexed c.protocol_type c.active_shares)
  indexed_shares-IsMap = indexed-IsMap c.protocol_type c.active_shares v.shares v.bounded

  nobody_awaited : round_received c ≡ true → (id : Bytes) → waiting_for c id ≡ false
  unfolding round_received waiting_for
  nobody_awaited h id =
      any-identifier_to_indices _ c id
      ∙ none_of_all _ c.protocol_type id c.active_shares λ k g. ap not (
          Covers-back c.input (indexed c.protocol_type c.active_shares) v.received
            indexed_shares-IsMap v.expected
            (omega (arith, (nat_beq_iff _ _).0 h, length-indexed c.protocol_type c.active_shares)) k
            g)

  everything_received :
      ((id : Bytes) → waiting_for c id ≡ false)
      → Covers (indexed c.protocol_type c.active_shares) c.input
  unfolding waiting_for
  everything_received h k g =
      elim (Option-cases (get k (indexed c.protocol_type c.active_shares))) [
        | inl absent ↦ absurd (cc)
        | inr (d, present) ↦
            let quiet =
              sym (any-identifier_to_indices (λ idx. not (contains_key idx c.input)) c d.id)
              ∙ h d.id in
            let seen =
              none_of_device _ c.protocol_type d.id c.active_shares k d quiet present refl in
            ground (arith, seen)
      ]

  -- While the indices of active shares are distinct and below 2^32 - 1 and only messages of
  -- active shares are buffered, a round is complete, which the code tests by comparing two
  -- lengths, exactly when the server awaits a message from no device.
  pub round_received_iff : (round_received c ≡ true) ↔ ((id : Bytes) → waiting_for c id ≡ false)
  unfolding round_received
  round_received_iff = (
    nobody_awaited,
    λ h. (nat_beq_iff _ _).1 (
        omega (
          arith,
          length-indexed c.protocol_type c.active_shares,
          Covers-length-le c.input (indexed c.protocol_type c.active_shares) v.received
              indexed_shares-IsMap v.expected,
          Covers-length-le (indexed c.protocol_type c.active_shares) c.input indexed_shares-IsMap
              v.received (everything_received h),
        )),
  )

  -- While a device is awaited the round is not complete.
  pub incomplete : (id : Bytes) → waiting_for c id ≡ true → round_received c ≡ false
  incomplete id waits = elim (Bool-cases (round_received c)) [
    | inl full ↦ absurd (cc (nobody_awaited full id))
    | inr open_round ↦ open_round
  ]
