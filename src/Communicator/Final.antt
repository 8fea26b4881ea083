-- ===== src/Communicator/Final.antt =====
-- What `get_final_message` returns.
use meesign_server.Base.{
  bytes_beq, Bool-cases, ℕ, ◌<◌, ◌≡◌, refl, ◌↔◌, ◌⊎◌, Option, none, some, [], ◌∷◌, Bytes, arith,
  length, bytes_beq_iff, inl, inr,
}
use meesign_server.Base.All.{All}
use meesign_server.Base.Exec.{Outcome, Error, ok, err, panic}
use meesign_server.Base.Map.{Map}
use meesign_server.Communicator.{Communicator, verified, final_message, get_final_message}
use meesign_server.Communicator.Messages.{ClientMessage, Crypto}

found-cases :
    (r : Outcome (Option Bytes))
    → ((m : Bytes) × (r ≡ ok (some m))) ⊎ (r ≡ ok none) ⊎ ((e : Error) × (r ≡ err e)) ⊎ (r ≡ panic)
found-cases (ok none) = inr (inl refl)
found-cases (ok (some m)) = inl (m, refl)
found-cases (err e) = inr (inr (inl (e, refl)))
found-cases panic = inr (inr (inr refl))

module _ ⦃x : Crypto⦄ (c : Communicator) where
  -- Every message verifies, and to the same content.
  abbrev pub Agrees : Bytes → Map ℕ ClientMessage → Type 0
  Agrees m = All λ p. verified c p.0 p.1 ≡ ok (some m)

  final_message_after :
      (input : Map ℕ ClientMessage) (prev m : Bytes)
      → (final_message c input (some prev) ≡ ok (some m)) ↔ ((prev ≡ m) × Agrees m input)
  unfolding final_message
  final_message_after [] prev m = (λ h. (ground arith, tt), λ h. ground arith)
  final_message_after ((s, msg) ∷ input) prev m = (
    λ h. elim (found-cases (verified c s msg)) [
      | inl (m', e) ↦ ground (arith, final_message_after input m' m, bytes_beq_iff prev m')
      | inr (inl e) ↦ ground arith
      | inr (inr (inl (r, e))) ↦ ground arith
      | inr (inr (inr e)) ↦ ground arith
    ],
    λ h. ground (arith, final_message_after input m m, bytes_beq_iff m m),
  )

  final_message_first :
      (input : Map ℕ ClientMessage) (m : Bytes)
      → (final_message c input none ≡ ok (some m)) ↔ ((0 < length input) × Agrees m input)
  unfolding final_message
  final_message_first [] m = (λ h. cc, λ h. absurd (elim h.0 [ ]))
  final_message_first ((s, msg) ∷ input) m = (
    λ h. elim (found-cases (verified c s msg)) [
      | inl (m', e) ↦ ground (arith, final_message_after input m' m)
      | inr (inl e) ↦ ground arith
      | inr (inr (inl (r, e))) ↦ ground arith
      | inr (inr (inr e)) ↦ ground arith
    ],
    λ h. ground (arith, final_message_after input m m),
  )

  -- A final message is returned exactly when there are messages, all carry a broadcast of a share
  -- of the task that verifies, and all verify to that one content.
  pub get_final_message-some :
      (m : Bytes) → (get_final_message c ≡ ok (some m)) ↔ ((0 < length c.input) × Agrees m c.input)
  unfolding get_final_message
  get_final_message-some m = final_message_first c.input m

  -- What a call without an error returns: nothing, a message, or a panic.
  abbrev pub Returns : Outcome (Option Bytes) → Type 0
  Returns r = (r ≡ ok none) ⊎ ((m : Bytes) × (r ≡ ok (some m))) ⊎ (r ≡ panic)

  verified-Returns : (s : ℕ) (msg : ClientMessage) → Returns (verified c s msg)
  unfolding verified
  verified-Returns s msg = ground arith

  final_message-Returns :
      (input : Map ℕ ClientMessage) (found : Option Bytes) → Returns (final_message c input found)
  unfolding final_message
  final_message-Returns [] none = inl refl
  final_message-Returns [] (some m) = inr (inl (m, refl))
  final_message-Returns ((s, msg) ∷ input) none = elim (verified-Returns s msg) [
    | inl e ↦ inl (ground arith)
    | inr (inl (m, e)) ↦ ground (arith, final_message-Returns input (some m))
    | inr (inr e) ↦ inr (inr (ground arith))
  ]
  final_message-Returns ((s, msg) ∷ input) (some prev) = elim (verified-Returns s msg) [
    | inl e ↦ inl (ground arith)
    | inr (inl (m, e)) ↦ elim (Bool-cases (bytes_beq prev m)) [
      | inl same ↦ ground (arith, final_message-Returns input (some m))
      | inr other ↦ inr (inr (ground arith))
    ]
    | inr (inr e) ↦ inr (inr (ground arith))
  ]

  pub get_final_message-Returns : Returns (get_final_message c)
  unfolding get_final_message
  get_final_message-Returns = final_message-Returns c.input none
