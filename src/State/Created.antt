-- ===== src/State/Created.antt =====
-- The participants of a new group hold the shares that are asked for.
use meesign_server.Base.{
  ltb, ◌&&◌, ◌||◌, ℕ, suc, ◌+◌, ◌<◌, ◌≡◌, refl, inl, inr, none, some, List, [], ◌∷◌, Bytes, arith,
  bytes_eq, bytes_beq, bytes_beq_iff, Option-cases, length, if◌then◌else◌,
}
use meesign_server.Base.All.{All, entries}
use meesign_server.Base.Exec.{ok}
use meesign_server.Base.Int.{u32}
use meesign_server.Base.Map.{Map, get, insert, keys, contains_key, get-insert, IsMap, insert-IsMap}
use meesign_server.Persistence.Models.{Device, Participant}
use meesign_server.Shares.{or_zero}
use meesign_server.State.{get_devices_with_ids}
use meesign_server.State.Create.{count_ids, with_shares, group_participants}
use meesign_server.Tasks.Voting.Tally.{by_id}

-- How often the identifier is asked for.
abbrev pub occurrences : Bytes → List Bytes → ℕ
occurrences id [] = 0
occurrences id (k ∷ ks) = if bytes_beq k id then suc (occurrences id ks) else occurrences id ks

count_ids-IsMap : (ids : List Bytes) (m : Map Bytes ℕ) → IsMap m → IsMap (count_ids m ids)
unfolding count_ids
count_ids-IsMap [] m h = h
count_ids-IsMap (id ∷ ids) m h =
    count_ids-IsMap ids (insert id (u32 (or_zero (get id m) + 1)) m) (insert-IsMap id _ m h)

get-count_ids :
    (id : Bytes) (ids : List Bytes) (m : Map Bytes ℕ)
    → or_zero (get id m) + length ids < 4294967296
    → or_zero (get id (count_ids m ids)) ≡ or_zero (get id m) + occurrences id ids
unfolding count_ids or_zero
get-count_ids id [] m h = omega arith
get-count_ids id (k ∷ ks) m h = ground (
  arith,
  get-count_ids id ks (insert k (u32 (or_zero (get k m) + 1)) m),
  get-insert k id (u32 (or_zero (get k m) + 1)) m,
  bytes_beq_iff k id,
)

contains_key-count_ids :
    (id : Bytes) (ids : List Bytes) (m : Map Bytes ℕ)
    → contains_key id (count_ids m ids) ≡ (contains_key id m || ltb 0 (occurrences id ids))
unfolding count_ids
contains_key-count_ids id [] m = ground arith
contains_key-count_ids id (k ∷ ks) m = ground (
  arith,
  contains_key-count_ids id ks (insert k (u32 (or_zero (get k m) + 1)) m),
  get-insert k id (u32 (or_zero (get k m) + 1)) m,
)

module _ (devices : Map Bytes Device)
    (keyed : (id : Bytes) (d : Device) → get id devices ≡ some d → d.id ≡ id) where
  -- The participants of a part of the counted shares.
  with_shares_lem :
      (all part : Map Bytes ℕ)
      → All (λ p. get p.0 all ≡ some p.1) part
      → (ps : List Participant) × (with_shares all (get_devices_with_ids devices (keys part))
          ≡ ok ps)
        × ((id : Bytes)
            → get id (by_id ps) ≡ (if contains_key id devices then get id part else none))
        × (IsMap part → IsMap (by_id ps))
        × All (λ p. get p.device.id devices ≡ some p.device) ps
  unfolding with_shares get_devices_with_ids get
  with_shares_lem all [] h = ([], refl, λ id. ground arith, λ m. tt, tt)
  with_shares_lem all ((k, n) ∷ part) h =
      let (ps, e, got, once, own) = with_shares_lem all part h.1 in
      elim (Option-cases (get k devices)) [
        | inl unknown ↦ (
          ps,
          ground (arith, unknown, e),
          λ id. ground (arith, got id, unknown, bytes_beq_iff k id),
          λ m. once m.1,
          own,
        )
        | inr (d, known) ↦ (
          record { device = d; shares = n } ∷ ps,
          ground (arith, known, keyed k d known, h.0, e),
          λ id. ground (arith, got id, known, keyed k d known, bytes_beq_iff k id),
          λ m. (ground (arith, got k, known, keyed k d known, m.0), once m.1),
          (ground (arith, known, keyed k d known), own),
        )
      ]

  -- Collecting the participants of a new group, where fewer than 2^32 identifiers are asked for
  -- and known devices are kept under their own identifiers, does not panic; no device is listed
  -- twice, each is the known device of its identifier, and a device is listed exactly when it is
  -- known and asked for, with as many shares as it is asked for times.
  pub group_shares :
      (device_ids : List Bytes)
      → length device_ids < 4294967296
      → (ps : List Participant) × (group_participants devices device_ids ≡ ok ps)
        × IsMap (by_id ps)
        × All (λ p. get p.device.id devices ≡ some p.device) ps
        × ((id : Bytes)
            → get id (by_id ps) ≡ (
                if contains_key id devices && ltb 0 (occurrences id device_ids)
                then some (occurrences id device_ids)
                else none))
  unfolding group_participants or_zero get
  group_shares device_ids short =
      let counted = count_ids [] device_ids in
      let keys_once = count_ids-IsMap device_ids [] tt in
      let (ps, e, got, once, own) = with_shares_lem counted counted (entries counted keys_once) in
      (
        ps,
        e,
        once keys_once,
        own,
        λ id. ground (
          arith,
          got id,
          get-count_ids id device_ids [] (omega arith),
          contains_key-count_ids id device_ids [],
        ),
      )
