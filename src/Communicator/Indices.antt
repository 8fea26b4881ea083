-- ===== src/Communicator/Indices.antt =====
-- The protocol indices of a communicator's shares, and its invariant.
use meesign_server.Base.{
  ℕ, suc, ◌+◌, ◌≤◌, ◌<◌, ◌≡◌, refl, ap, Bool, true, false, none, some, [], ◌∷◌, Bytes, arith,
  length, any, any-sort, nat_beq, nat_beq_iff, bytes_beq_iff, nat_eq, Bool-cases, inl, inr,
}
use meesign_server.Base.Map.{Map, get, contains_key, IsMap, Covers}
use meesign_server.Communicator.{
  Communicator, index_offset, protocol_index, device_indices, identifier_to_indices,
}
use meesign_server.Persistence.Enums.{ProtoProtocolType}
use meesign_server.Persistence.Models.{Device}

-- Every index leaves room for the offset of its protocol in a `u32`.
abbrev pub IsBounded : Map ℕ Device → Type 0
IsBounded [] = Unit
IsBounded ((i, d) ∷ m) = (i + 1 < 4294967296) × IsBounded m

-- The active shares by protocol index.
abbrev pub indexed : ProtoProtocolType → Map ℕ Device → Map ℕ Device
indexed p [] = []
indexed p ((i, d) ∷ m) = (protocol_index p i, d) ∷ indexed p m

pub record IsValid (c : Communicator) : Type 0 where
  pub shares : IsMap c.active_shares
  pub bounded : IsBounded c.active_shares
  pub received : IsMap c.input
  pub expected : Covers c.input (indexed c.protocol_type c.active_shares)

pub index_offset-le : (p : ProtoProtocolType) → index_offset p ≤ 1
unfolding index_offset
index_offset-le ProtoProtocolType.frost = omega arith
index_offset-le _ = omega arith

pub protocol_index-injective :
    (p : ProtoProtocolType) (i j : ℕ)
    → i + 1 < 4294967296
    → j + 1 < 4294967296
    → protocol_index p i ≡ protocol_index p j
    → i ≡ j
unfolding protocol_index
protocol_index-injective p i j hi hj e = omega (arith, index_offset-le p)

pub length-indexed : (p : ProtoProtocolType) (m : Map ℕ Device) → length (indexed p m) ≡ length m
length-indexed p [] = refl
length-indexed p ((i, d) ∷ m) = ap suc (length-indexed p m)

get-indexed_absent :
    (p : ProtoProtocolType) (i : ℕ) (m : Map ℕ Device)
    → i + 1 < 4294967296
    → IsBounded m
    → get i m ≡ none
    → get (protocol_index p i) (indexed p m) ≡ none
unfolding get
get-indexed_absent p i [] h b e = refl
get-indexed_absent p i ((j, d) ∷ m) h b e =
    ground (arith, protocol_index-injective p i j h b.0, get-indexed_absent p i m h b.1)

pub indexed-IsMap :
    (p : ProtoProtocolType) (m : Map ℕ Device) → IsMap m → IsBounded m → IsMap (indexed p m)
indexed-IsMap p [] h b = tt
indexed-IsMap p ((i, d) ∷ m) h b = (get-indexed_absent p i m b.0 b.1 h.0, indexed-IsMap p m h.1 b.1)

-- Whether some index of the device passes a test, read off the unsorted indices.
pub any-identifier_to_indices :
    (p : ℕ → Bool) (c : Communicator) (id : Bytes)
    → any p (identifier_to_indices c id) ≡ any p (device_indices c.protocol_type id c.active_shares)
unfolding identifier_to_indices
any-identifier_to_indices p c id = any-sort p (device_indices c.protocol_type id c.active_shares)

-- No index of the device passes the test: then none of its shares does.
pub none_of_device :
    (test : ℕ → Bool) (p : ProtoProtocolType) (id : Bytes) (m : Map ℕ Device) (k : ℕ) (d : Device)
    → any test (device_indices p id m) ≡ false
    → get k (indexed p m) ≡ some d
    → d.id ≡ id
    → test k ≡ false
unfolding device_indices get
none_of_device test p id [] k d h g e = cc
none_of_device test p id ((i, dev) ∷ m) k d h g e =
    elim (Bool-cases (nat_beq (protocol_index p i) k)) [
      | inl hit ↦ ground (arith, bytes_beq_iff dev.id id, nat_beq_iff (protocol_index p i) k)
      | inr miss ↦ none_of_device test p id m k d (ground arith) (ground arith) e
    ]

-- Every share fails the test: then no index of the device passes it.
pub none_of_all :
    (test : ℕ → Bool) (p : ProtoProtocolType) (id : Bytes) (m : Map ℕ Device)
    → ((k : ℕ) → contains_key k (indexed p m) ≡ true → test k ≡ false)
    → any test (device_indices p id m) ≡ false
unfolding device_indices get
none_of_all test p id [] h = refl
none_of_all test p id ((i, dev) ∷ m) h =
    ground (arith, h (protocol_index p i), none_of_all test p id m (λ k g. h k (ground (arith))))
