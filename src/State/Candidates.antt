-- ===== src/State/Candidates.antt =====
-- The shares that `choose_active_shares` of state.rs chooses from.
use meesign_server.Base.{
  ℕ, ◌+◌, ◌≤◌, ◌≡◌, ◌≢◌, refl, sym, inl, inr, Bool, true, false, List, [], ◌∷◌, Bytes, arith,
  bytes_eq, nat_eq, bytes_beq, bytes_beq_iff, Bool-cases, keep, ltb, sort_by, sorted_insert,
  if◌then◌else◌,
}
use meesign_server.Base.All.{All, All-mono, All-sort_by, All-sorted_insert}
use meesign_server.Base.Exec.{ok}
use meesign_server.Base.Map.{Map, get, insert}
use meesign_server.Persistence.Models.{Device, Participant}
use meesign_server.Shares.{share_devices}
use meesign_server.Shares.Assign.{total}
use meesign_server.Shares.Restore.{count-replicate, Known-other, All-replicate}
use meesign_server.Shares.Windows.{count, Known, Fits, Apart, Unlisted}
use meesign_server.State.{State, get_device_last_activation, or_now}
use meesign_server.State.Choose.{u64, connected}

-- No more shares of any device, and of no other devices.
abbrev pub Fewer : List Participant → List Participant → Type 1
Fewer qs ps =
    ((id : Bytes) → count (share_devices qs) id ≤ count (share_devices ps) id)
    × ((P : Device → Type 0) → All (λ p. P p.device) ps → All (λ p. P p.device) qs)

pub Fewer-trans : (ds es fs : List Participant) → Fewer ds es → Fewer es fs → Fewer ds fs
Fewer-trans ds es fs a b = (λ id. omega (arith, a.0 id, b.0 id), λ P h. a.1 P (b.1 P h))

count_cons :
    (p : Participant) (ps : List Participant) (id : Bytes)
    → count (share_devices (p ∷ ps)) id ≡ (
        if bytes_beq p.device.id id
        then p.shares + count (share_devices ps) id
        else count (share_devices ps) id)
unfolding share_devices
count_cons p ps id = count-replicate p.shares p.device (share_devices ps) id

-- The list without its first participant, or with it, as a test says.
Fewer-if :
    (b : Bool) (p : Participant) (qs ps : List Participant)
    → Fewer qs ps
    → Fewer (if b then p ∷ qs else qs) (p ∷ ps)
Fewer-if true p qs ps f =
    (λ id. ground (arith, count_cons p qs id, count_cons p ps id, f.0 id), λ P h. (h.0, f.1 P h.1))
Fewer-if false p qs ps f = (λ id. ground (arith, count_cons p ps id, f.0 id), λ P h. f.1 P h.1)

pub keep-Fewer : (b : Participant → Bool) (ps : List Participant) → Fewer (keep b ps) ps
keep-Fewer b [] = (λ id. omega arith, λ P h. h)
keep-Fewer b (p ∷ ps) = Fewer-if (b p) p (keep b ps) ps (keep-Fewer b ps)

-- The look at the last activations only reads the tasks, and always returns.
pub connected_lem :
    {R Tx : Type 0} (now : ℕ) (ps : List Participant) (s : State R Tx)
    → (qs : List Participant) × (acts : Map Bytes ℕ) × (connected now ps s
        ≡ (ok qs, record s { device_last_activations = acts }))
      × Fewer qs ps
unfolding connected get_device_last_activation
connected_lem now [] s = ([], s.device_last_activations, refl, (λ id. omega arith, λ P h. h))
connected_lem now (p ∷ ps) s =
    let last = or_now now (get p.device.id s.device_last_activations) in
    let recent = ltb (u64 (now + 18446744073709551611)) last in
    let (qs, acts, e, fewer) =
      connected_lem now ps (record s {
        device_last_activations = insert p.device.id last s.device_last_activations;
      }) in
    (if recent then p ∷ qs else qs, acts, rw e refl, Fewer-if recent p qs ps fewer)

pub All-share_devices :
    (P : Device → Type 0) (ps : List Participant)
    → All (λ p. P p.device) ps
    → All P (share_devices ps)
unfolding share_devices
All-share_devices P [] h = tt
All-share_devices P (p ∷ ps) h =
    All-replicate P p.shares p.device (share_devices ps) h.0 (All-share_devices P ps h.1)

pub keep-All : (b : Participant → Bool) (ps : List Participant) → All (λ p. b p ≡ true) (keep b ps)
keep-All b [] = tt
keep-All b (p ∷ ps) = elim (Bool-cases (b p)) [
  | inl kept ↦ rw kept (kept, keep-All b ps)
  | inr left_out ↦ rw left_out (keep-All b ps)
]

-- Sorting keeps the participants apart and their shares.
Unlisted-All :
    (id : Bytes) (ps : List Participant) → Unlisted id ps → All (λ p. p.device.id ≢ id) ps
Unlisted-All id [] u = tt
Unlisted-All id (p ∷ ps) u = (u.0, Unlisted-All id ps u.1)

All-Unlisted :
    (id : Bytes) (ps : List Participant) → All (λ p. p.device.id ≢ id) ps → Unlisted id ps
All-Unlisted id [] u = tt
All-Unlisted id (p ∷ ps) u = (u.0, All-Unlisted id ps u.1)

module _ (le : Participant → Participant → Bool) where
  Apart-sorted_insert :
      (p : Participant) (ps : List Participant)
      → Unlisted p.device.id ps
      → Apart ps
      → Apart (sorted_insert le p ps)
  unfolding sorted_insert
  Apart-sorted_insert p [] u a = (tt, tt)
  Apart-sorted_insert p (q ∷ ps) u a = elim (Bool-cases (le p q)) [
    | inl first ↦ rw first (u, a)
    | inr later ↦ rw later (
      All-Unlisted q.device.id (sorted_insert le p ps) (
          All-sorted_insert (λ r. r.device.id ≢ q.device.id) le p ps (λ e. u.0 (sym e))
            (Unlisted-All q.device.id ps a.0)),
      Apart-sorted_insert p ps u.1 a.1,
    )
  ]

  pub Apart-sort_by : (ps : List Participant) → Apart ps → Apart (sort_by le ps)
  unfolding sort_by
  Apart-sort_by [] a = tt
  Apart-sort_by (p ∷ ps) a =
      Apart-sorted_insert p (sort_by le ps)
        (All-Unlisted p.device.id (sort_by le ps)
          (All-sort_by (λ r. r.device.id ≢ p.device.id) le ps (Unlisted-All p.device.id ps a.0)))
        (Apart-sort_by ps a.1)

  total-sorted_insert :
      (p : Participant) (ps : List Participant)
      → total (sorted_insert le p ps) ≡ p.shares + total ps
  unfolding sorted_insert
  total-sorted_insert p [] = refl
  total-sorted_insert p (q ∷ ps) = ground (arith, total-sorted_insert p ps)

  pub total-sort_by : (ps : List Participant) → total (sort_by le ps) ≡ total ps
  unfolding sort_by
  total-sort_by [] = refl
  total-sort_by (p ∷ ps) = omega (arith, total-sorted_insert p (sort_by le ps), total-sort_by ps)

pub All-Known : (ps : List Participant) → Apart ps → All (λ p. Known p.device ps) ps
All-Known [] a = tt
All-Known (p ∷ ps) a = (
  inl refl,
  All-mono (λ q. Known q.device ps) (λ q k. inr (Known-other p.device.id q.device ps a.0 k, k)) ps
      (All-Known ps a.1),
)

-- A participant's shares are those that may be chosen of it.
count-Unlisted :
    (id : Bytes) (ps : List Participant) → Unlisted id ps → count (share_devices ps) id ≡ 0
unfolding share_devices count
count-Unlisted id [] u = refl
count-Unlisted id (p ∷ ps) u =
    ground (arith, count_cons p ps id, bytes_beq_iff p.device.id id, count-Unlisted id ps u.1)

pub shares_exact :
    (ps : List Participant)
    → Apart ps
    → All (λ p. count (share_devices ps) p.device.id ≤ p.shares) ps
shares_exact [] a = tt
shares_exact (p ∷ ps) a = (
  ground (
    arith,
    count_cons p ps p.device.id,
    bytes_beq_iff p.device.id p.device.id,
    count-Unlisted p.device.id ps a.0,
  ),
  All_zip_with ps (Unlisted-All p.device.id ps a.0) (shares_exact ps a.1),
)
  where
    All_zip_with :
        (qs : List Participant)
        → All (λ q. q.device.id ≢ p.device.id) qs
        → All (λ q. count (share_devices ps) q.device.id ≤ q.shares) qs
        → All (λ q. count (share_devices (p ∷ ps)) q.device.id ≤ q.shares) qs
    All_zip_with [] u h = tt
    All_zip_with (q ∷ qs) u h = (
      ground (arith, count_cons p ps q.device.id, bytes_beq_iff p.device.id q.device.id, u.0, h.0),
      All_zip_with qs u.1 h.1,
    )

pub Fits-below :
    (f : Bytes → ℕ) (ps : List Participant)
    → All (λ p. f p.device.id ≤ p.shares) ps
    → Fits ps (λ id. 0) f
Fits-below f [] h = tt
Fits-below f (p ∷ ps) h = (omega (arith, h.0), Fits-below f ps h.1)
