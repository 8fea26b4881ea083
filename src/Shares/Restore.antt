-- ===== src/Shares/Restore.antt =====
-- A restart restores the assignment of indices from the stored numbers of active shares.
use meesign_server.Base.{
  true, ◌≢◌, inl, inr, ap, sym, ◌∙◌, ℕ, zero, suc, ◌+◌, ◌<◌, ◌≡◌, refl, Bool, false, List, [], ◌∷◌,
  ◌++◌, Bytes, arith, bytes_eq, nat_eq, bytes_beq, bytes_beq_iff, if◌then◌else◌, any, length,
  replicate,
}
use meesign_server.Base.All.{All, All-mono}
use meesign_server.Base.Exec.{ok}
use meesign_server.Base.Int.{u32}
use meesign_server.Base.Map.{Map, get, insert, get-insert}
use meesign_server.Persistence.Models.{Device, Participant}
use meesign_server.Shares.{assign, restore, or_zero, count_shares, restored_devices}
use meesign_server.Shares.Assign.{IsChoice, assign_exact}
use meesign_server.Shares.Windows.{owner, Known, Fits, count, Apart, Unlisted}

-- The stored number of a device is that of its chosen shares.
stored_count :
    (id : Bytes) (ds : List Device) (m : Map Bytes ℕ)
    → or_zero (get id m) + length ds < 4294967296
    → or_zero (get id (count_shares m ds)) ≡ or_zero (get id m) + count ds id
unfolding count_shares count or_zero
stored_count id [] m h = omega arith
stored_count id (d ∷ ds) m h = ground (
  arith,
  stored_count id ds (insert d.id (u32 (or_zero (get d.id m) + 1)) m),
  get-insert d.id id (u32 (or_zero (get d.id m) + 1)) m,
  bytes_beq_iff d.id id,
)

pub count-replicate :
    (n : ℕ) (d : Device) (ds : List Device) (id : Bytes)
    → count (replicate n d ++ ds) id ≡ (if bytes_beq d.id id then n + count ds id else count ds id)
unfolding count
count-replicate zero d ds id = ground arith
count-replicate (suc n) d ds id = ground (arith, count-replicate n d ds id)

abbrev listed : Bytes → List Participant → Bool
listed id = any (λ p. bytes_beq p.device.id id)

module _ (stored : Map Bytes ℕ) where
  unlisted_lem : (id : Bytes) (ps : List Participant) → Unlisted id ps → listed id ps ≡ false
  unlisted_lem id [] u = refl
  unlisted_lem id (p ∷ ps) u = ground (arith, bytes_beq_iff p.device.id id, unlisted_lem id ps u.1)

  count-restored :
      (id : Bytes) (ps : List Participant)
      → Apart ps
      → count (restored_devices stored ps) id
        ≡ (if listed id ps then or_zero (get id stored) else 0)
  unfolding restored_devices count
  count-restored id [] a = refl
  count-restored id (p ∷ ps) a = ground (
    arith,
    count-replicate (or_zero (get p.device.id stored)) p.device (restored_devices stored ps) id,
    count-restored id ps a.1,
    unlisted_lem p.device.id ps a.0,
    bytes_beq_iff p.device.id id,
  )

-- Both give every participant the same number.
abbrev Agree : (Bytes → ℕ) → (Bytes → ℕ) → List Participant → Type 0
Agree f g = All (λ p. f p.device.id ≡ g p.device.id)

owner-Agree :
    (ps : List Participant) (done f g : Bytes → ℕ) (start i : ℕ)
    → Agree f g ps
    → owner ps done f start i ≡ owner ps done g start i
unfolding owner
owner-Agree [] done f g start i h = refl
owner-Agree (p ∷ ps) done f g start i h =
    ground (arith, h.0, owner-Agree ps done f g (start + p.shares) i h.1)

Fits-Agree :
    (ps : List Participant) (done f g : Bytes → ℕ) → Agree f g ps → Fits ps done f → Fits ps done g
Fits-Agree [] done f g h b = tt
Fits-Agree (p ∷ ps) done f g h b = (omega (arith, h.0, b.0), Fits-Agree ps done f g h.1 b.1)

All-listed :
    (qs ps : List Participant)
    → ((id : Bytes) → listed id ps ≡ true → listed id qs ≡ true)
    → All (λ p. listed p.device.id qs ≡ true) ps
All-listed qs [] h = tt
All-listed qs (p ∷ ps) h = (
  h p.device.id (ground (arith, bytes_beq_iff p.device.id p.device.id)),
  All-listed qs ps (λ id k. h id (ground arith)),
)

pub Known-other :
    (id : Bytes) (d : Device) (ps : List Participant) → Unlisted id ps → Known d ps → id ≢ d.id
Known-other id d [] u k = absurd k
Known-other id d (p ∷ ps) u (inl e) = λ q. u.0 (ap (λ (x : Device). x.id) e ∙ sym q)
Known-other id d (p ∷ ps) u (inr k) = Known-other id d ps u.1 k.1

pub All-replicate :
    (P : Device → Type 0) (n : ℕ) (d : Device) (ds : List Device)
    → P d
    → All P ds
    → All P (replicate n d ++ ds)
All-replicate P zero d ds p h = h
All-replicate P (suc n) d ds p h = (p, All-replicate P n d ds p h)

restored-Known :
    (stored : Map Bytes ℕ) (ps : List Participant)
    → Apart ps
    → All (λ d. Known d ps) (restored_devices stored ps)
unfolding restored_devices
restored-Known stored [] a = tt
restored-Known stored (p ∷ ps) a =
    All-replicate (λ d. Known d (p ∷ ps)) (or_zero (get p.device.id stored)) p.device
      (restored_devices stored ps) (inl refl)
      (All-mono (λ d. Known d ps) (λ d k. inr (Known-other p.device.id d ps a.0 k, k))
        (restored_devices stored ps) (restored-Known stored ps a.1))

-- The shares that are restored are as many of each participant as were chosen.
restored-Agree :
    (ps : List Participant) (ds : List Device)
    → Apart ps
    → length ds < 4294967296
    → Agree (count ds) (count (restored_devices (count_shares [] ds) ps)) ps
unfolding or_zero get
restored-Agree ps ds a n =
    All-mono (λ p. listed p.device.id ps ≡ true)
      (λ p l. ground (
        arith,
        count-restored (count_shares [] ds) p.device.id ps a,
        stored_count p.device.id ds [] (omega arith),
        l,
      ))
      ps (All-listed ps ps (λ id l. l))

pub restored-IsChoice :
    (ps : List Participant) (ds : List Device)
    → IsChoice ps ds
    → length ds < 4294967296
    → IsChoice ps (restored_devices (count_shares [] ds) ps)
restored-IsChoice ps ds v n = record {
  apart = v.apart;
  bounded = v.bounded;
  known = restored-Known (count_shares [] ds) ps v.apart;
  fits = Fits-Agree ps (λ id. 0) (count ds) _ (restored-Agree ps ds v.apart n) v.fits;
}

-- The assignment of protocol indices that a restart computes from the stored numbers of active
-- shares is the one that was in use: for distinct participants with fewer than 2^32 shares and
-- fewer than 2^32 chosen shares, of each participant at most its own and in any order, both
-- computations end without a panic and give every index the same device, or none in both.
pub restore_roundtrip :
    (ps : List Participant) (ds : List Device)
    → IsChoice ps ds
    → length ds < 4294967296
    → (m m' : Map ℕ Device) × (assign ps ds ≡ ok m)
      × (restore ps (count_shares [] ds) ≡ ok m')
      × ((i : ℕ) → get i m ≡ get i m')
unfolding restore
restore_roundtrip ps ds v n =
    let (m, assigned, got) = assign_exact ps ds v in
    let (m', restored, got') = assign_exact ps _ (restored-IsChoice ps ds v n) in
    (
      m,
      m',
      assigned,
      restored,
      λ i.
          got i
          ∙ owner-Agree ps (λ id. 0) (count ds) _ 0 i (restored-Agree ps ds v.apart n)
          ∙ sym (got' i),
    )
