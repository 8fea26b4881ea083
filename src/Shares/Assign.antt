-- ===== src/Shares/Assign.antt =====
-- What `choose_active_shares` assigns: each chosen device has the first indices of its window.
use meesign_server.Base.{
  ◌≢◌, sym, ℕ, suc, ◌+◌, ◌<◌, ◌≡◌, inl, inr, refl, ap, Option, none, some, List, [], ◌∷◌, Bytes,
  arith, bytes_eq, nat_eq, bytes_beq, bytes_beq_iff, Bool-cases, subst,
}
use meesign_server.Base.All.{get-extend_absent, All}
use meesign_server.Base.Exec.{ok}
use meesign_server.Base.Int.{u32}
use meesign_server.Base.Map.{Map, get, insert, extend, get-insert}
use meesign_server.Persistence.Models.{Device, Participant}
use meesign_server.Shares.{first_share_indices, assign, scan_first, scan_shares}
use meesign_server.Shares.Windows.{
  Unlisted, count, owner, bump, Known, Fits, Apart, Ready, owner_step,
}

abbrev pub total : List Participant → ℕ
total [] = 0
total (p ∷ ps) = p.shares + total ps

abbrev or_else : Option Device → Option Device → Option Device
or_else none other = other
or_else (some d) other = some d

owner-none :
    (ps : List Participant) (done : Bytes → ℕ) (start i : ℕ)
    → owner ps done (λ id. 0) start i ≡ none
unfolding owner
owner-none [] done start i = refl
owner-none (p ∷ ps) done start i = ground (arith, owner-none ps done (start + p.shares) i)

next-Known :
    (d : Device) (next : Map Bytes ℕ) (done chosen : Bytes → ℕ) (start : ℕ) (ps : List Participant)
    → Known d ps
    → Fits ps done (bump chosen d.id)
    → Ready next done start ps
    → (j : ℕ) × (get d.id next ≡ some j) × (j < start + total ps)
next-Known d next done chosen start [] known f r = absurd known
next-Known d next done chosen start (p ∷ ps) (inl e) f r =
    let same : p.device.id ≡ d.id = ap (λ (x : Device). x.id) e in
    (
      start + done p.device.id,
      subst (λ id. get id next ≡ some (start + done p.device.id)) same r.0,
      ground (arith, same, bytes_beq_iff d.id p.device.id),
    )
next-Known d next done chosen start (p ∷ ps) (inr (other, known)) f r =
    let (j, found, below) = next-Known d next done chosen (start + p.shares) ps known f.1 r.1 in
    (j, found, omega arith)

Ready-step :
    (d : Device) (next : Map Bytes ℕ) (done : Bytes → ℕ) (start j : ℕ) (ps : List Participant)
    → Ready next done start ps
    → get d.id next ≡ some j
    → Ready (insert d.id (suc j) next) (bump done d.id) start ps
Ready-step d next done start j [] r g = tt
Ready-step d next done start j (p ∷ ps) r g = (
  elim (Bool-cases (bytes_beq d.id p.device.id)) [
    | inl same ↦
        ground
          (arith, get-insert d.id p.device.id (suc j) next, bytes_beq_iff d.id p.device.id, r.0)
    | inr other ↦ ground (arith, get-insert d.id p.device.id (suc j) next, r.0)
  ],
  Ready-step d next done (start + p.shares) j ps r.1 g,
)

Fits-step :
    (d : Device) (done chosen : Bytes → ℕ) (ps : List Participant)
    → Fits ps done (bump chosen d.id)
    → Fits ps (bump done d.id) chosen
Fits-step d done chosen [] f = tt
Fits-step d done chosen (p ∷ ps) f = (ground (arith, f.0), Fits-step d done chosen ps f.1)

module _ (ps : List Participant) (apart : Apart ps) (bounded : total ps < 4294967296) where
  scan_shares_lem :
      (ds : List Device) (next : Map Bytes ℕ) (done : Bytes → ℕ) (m : Map ℕ Device)
      → All (λ d. Known d ps) ds
      → Fits ps done (count ds)
      → Ready next done 0 ps
      → (pairs : List (ℕ × Device)) × (scan_shares next ds ≡ ok pairs)
        × ((i : ℕ) → get i (extend m pairs) ≡ or_else (owner ps done (count ds) 0 i) (get i m))
  unfolding scan_shares count extend
  scan_shares_lem [] next done m known f r = ([], refl, λ i. ground (arith, owner-none ps done 0 i))
  scan_shares_lem (d ∷ ds) next done m known f r =
      let (j, found, below) = next-Known d next done (count ds) 0 ps known.0 f r in
      let wide : u32 (j + 1) ≡ suc j = omega arith in
      let (pairs, scanned, got) =
        scan_shares_lem ds (insert d.id (suc j) next) (bump done d.id) (insert j d m) known.1
          (Fits-step d done (count ds) ps f) (Ready-step d next done 0 j ps r found) in
      (
        (j, d) ∷ pairs,
        ground (arith, found, wide, scanned),
        λ i. ground (
          arith,
          got i,
          get-insert j i d m,
          owner_step ps d next done (count ds) 0 j i apart known.0 f r found,
        ),
      )

scan_first_ids :
    (id : Bytes) (start : ℕ) (ps : List Participant)
    → Unlisted id ps
    → All (λ q. q.0 ≢ id) (scan_first start ps)
unfolding scan_first
scan_first_ids id start [] u = tt
scan_first_ids id start (p ∷ ps) u = (u.0, scan_first_ids id (u32 (start + p.shares)) ps u.1)

Ready-first :
    (m : Map Bytes ℕ) (start : ℕ) (ps : List Participant)
    → Apart ps
    → start + total ps < 4294967296
    → Ready (extend m (scan_first start ps)) (λ id. 0) start ps
unfolding scan_first extend
Ready-first m start [] a b = tt
Ready-first m start (p ∷ ps) a b =
    let wide : u32 (start + p.shares) ≡ start + p.shares = omega arith in
    (
      ground (
        arith,
        get-extend_absent p.device.id (insert p.device.id start m) _
            (scan_first_ids p.device.id (u32 (start + p.shares)) ps a.0),
        get-insert p.device.id p.device.id start m,
        bytes_beq_iff p.device.id p.device.id,
      ),
      subst
          (λ s.
            Ready (extend (insert p.device.id start m) (scan_first s ps)) (λ id. 0)
              (start + p.shares) ps)
          (sym wide)
          (Ready-first (insert p.device.id start m) (start + p.shares) ps a.1 (omega arith)),
    )

-- The chosen shares are of known participants, no more of each than it has.
pub record IsChoice (ps : List Participant) (ds : List Device) : Type 0 where
  pub apart : Apart ps
  pub bounded : total ps < 4294967296
  pub known : All (λ d. Known d ps) ds
  pub fits : Fits ps (λ id. 0) (count ds)

-- For distinct participants with fewer than 2^32 shares, chosen shares, of each participant at
-- most its own and in whatever order they were chosen, are assigned without a panic, and an index
-- is a device's exactly when it is among the first of the device's indices, as many as were
-- chosen of its shares, where the indices of a device follow those of all participants before it.
pub assign_exact :
    (ps : List Participant) (ds : List Device)
    → IsChoice ps ds
    → (m : Map ℕ Device) × (assign ps ds ≡ ok m)
      × ((i : ℕ) → get i m ≡ owner ps (λ id. 0) (count ds) 0 i)
unfolding assign first_share_indices get
assign_exact ps ds v =
    let (pairs, scanned, got) =
      scan_shares_lem ps v.apart v.bounded ds (first_share_indices ps) (λ id. 0) [] v.known v.fits
        (Ready-first [] 0 ps v.apart (omega (arith, v.bounded))) in
    (extend [] pairs, rw scanned refl, λ i. ground (arith, got i))
