-- ===== src/Communicator/Owners.antt =====
-- Which device owns a protocol index: the indices of a device are distinct, and those of two
-- devices have none in common.
use meesign_server.Base.{
  ℕ, ◌≡◌, refl, ◌≢◌, none, some, [], ◌∷◌, Bytes, arith, nat_beq_iff, bytes_beq, bytes_beq_iff,
  nat_eq, Bool-cases, inl, inr,
}
use meesign_server.Base.All.{All, All-mono, All-sort, Distinct, Distinct-sort}
use meesign_server.Base.Map.{Map, get, IsMap}
use meesign_server.Communicator.{
  Communicator, protocol_index, device_indices, identifier_to_indices,
}
use meesign_server.Communicator.Indices.{IsValid, indexed, indexed-IsMap}
use meesign_server.Persistence.Enums.{ProtoProtocolType}
use meesign_server.Persistence.Models.{Device}

-- The share with the index is the device's.
abbrev pub Owns : Bytes → Map ℕ Device → ℕ → Type 0
Owns id m k = (d : Device) × (get k m ≡ some d) × (d.id ≡ id)

Owns-tail :
    (id : Bytes) (i : ℕ) (d : Device) (m : Map ℕ Device)
    → get i m ≡ none
    → (k : ℕ) → Owns id m k
    → Owns id ((i, d) ∷ m) k
unfolding get
Owns-tail id i d m absent k (dev, g, e) = (dev, ground (arith, nat_beq_iff i k), e)

Owns-apart :
    (id : Bytes) (i : ℕ) (m : Map ℕ Device) → get i m ≡ none → (k : ℕ) → Owns id m k → k ≢ i
Owns-apart id i m absent k (dev, g, e) same = cc

module _ (p : ProtoProtocolType) (id : Bytes) where
  device_indices-Owns :
      (m : Map ℕ Device) → IsMap (indexed p m) → All (Owns id (indexed p m)) (device_indices p id m)
  unfolding device_indices
  device_indices-Owns [] h = tt
  device_indices-Owns ((i, d) ∷ m) h =
      let rest =
        All-mono _ (Owns-tail id (protocol_index p i) d (indexed p m) h.0) _
          (device_indices-Owns m h.1) in
      elim (Bool-cases (bytes_beq d.id id)) [
        | inl own ↦ rw own (
          (d, unfold get in rw ((nat_beq_iff _ _).1 refl) refl, (bytes_beq_iff d.id id).0 own),
          rest,
        )
        | inr other ↦ rw other rest
      ]

  device_indices-Distinct :
      (m : Map ℕ Device) → IsMap (indexed p m) → Distinct (device_indices p id m)
  unfolding device_indices
  device_indices-Distinct [] h = tt
  device_indices-Distinct ((i, d) ∷ m) h = elim (Bool-cases (bytes_beq d.id id)) [
    | inl own ↦ rw own (
      All-mono _ (Owns-apart id (protocol_index p i) (indexed p m) h.0) _
          (device_indices-Owns m h.1),
      device_indices-Distinct m h.1,
    )
    | inr other ↦ rw other (device_indices-Distinct m h.1)
  ]

module _ (c : Communicator) (v : IsValid c) (id : Bytes) where
  pub identifier_to_indices-Owns :
      All (Owns id (indexed c.protocol_type c.active_shares)) (identifier_to_indices c id)
  unfolding identifier_to_indices
  identifier_to_indices-Owns =
      All-sort _ _ (device_indices-Owns _ id c.active_shares (indexed-IsMap _ _ v.shares v.bounded))

  pub identifier_to_indices-Distinct : Distinct (identifier_to_indices c id)
  unfolding identifier_to_indices
  identifier_to_indices-Distinct =
      Distinct-sort _
        (device_indices-Distinct _ id c.active_shares (indexed-IsMap _ _ v.shares v.bounded))

pub owners_agree :
    (id other : Bytes) (m : Map ℕ Device) (k : ℕ) → Owns id m k → Owns other m k → id ≡ other
owners_agree id other m k (d, g, e) (d', g', e') = cc
