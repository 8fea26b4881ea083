-- ===== src/Shares/Windows.antt =====
-- The indices of the participants as windows, one after the other.
use meesign_server.Base.{
  subst, ℕ, suc, ◌+◌, ◌≤◌, ◌<◌, ◌≡◌, ◌≢◌, ◌⊎◌, inl, inr, refl, ap, ◌&&◌, Option, none, some, List,
  [], ◌∷◌, Bytes, arith, bytes_eq, bytes_beq, bytes_beq_iff, leb, ltb, nat_beq, if◌then◌else◌,
}
use meesign_server.Base.Map.{Map, get}
use meesign_server.Persistence.Models.{Device, Participant}

-- How many of the chosen shares are the device's.
unfoldable pub count : List Device → Bytes → ℕ
count [] id = 0
count (d ∷ ds) id = if bytes_beq d.id id then suc (count ds id) else count ds id

-- The device whose window holds the index: the window of a participant begins after the shares of
-- those before it and its own that are done, and is as wide as its number of chosen shares.
unfoldable pub owner : List Participant → (Bytes → ℕ) → (Bytes → ℕ) → ℕ → ℕ → Option Device
owner [] done chosen start i = none
owner (p ∷ ps) done chosen start i =
    let rest = owner ps done chosen (start + p.shares) i in
    if leb (start + done p.device.id) i && ltb i (start + done p.device.id + chosen p.device.id)
    then some p.device
    else rest

-- One more share of the device is done.
abbrev pub bump : (Bytes → ℕ) → Bytes → Bytes → ℕ
bump done id k = if bytes_beq id k then suc (done k) else done k

-- The device is the first participant's with its identifier.
abbrev pub Known : Device → List Participant → Type 0
Known d [] = ⊥
Known d (p ∷ ps) = (p.device ≡ d) ⊎ ((p.device.id ≢ d.id) × Known d ps)

-- No window is wider than the shares of its participant.
abbrev pub Fits : List Participant → (Bytes → ℕ) → (Bytes → ℕ) → Type 0
Fits [] done chosen = Unit
Fits (p ∷ ps) done chosen = (done p.device.id + chosen p.device.id ≤ p.shares) × Fits ps done chosen

-- No participant has the identifier.
abbrev pub Unlisted : Bytes → List Participant → Type 0
Unlisted id [] = Unit
Unlisted id (p ∷ ps) = (p.device.id ≢ id) × Unlisted id ps

-- The identifiers are distinct.
abbrev pub Apart : List Participant → Type 0
Apart [] = Unit
Apart (p ∷ ps) = Unlisted p.device.id ps × Apart ps

-- The next index of every participant, as the code keeps it.
abbrev pub Ready : Map Bytes ℕ → (Bytes → ℕ) → ℕ → List Participant → Type 0
Ready next done start [] = Unit
Ready next done start (p ∷ ps) =
    (get p.device.id next ≡ some (start + done p.device.id)) × Ready next done (start + p.shares) ps

owner_before :
    (ps : List Participant) (done chosen : Bytes → ℕ) (start i : ℕ)
    → i < start
    → owner ps done chosen start i ≡ none
unfolding owner
owner_before [] done chosen start i h = refl
owner_before (p ∷ ps) done chosen start i h =
    ground (arith, owner_before ps done chosen (start + p.shares) i)

-- The next index of a known device lies at or after the start.
next_after :
    (d : Device) (next : Map Bytes ℕ) (done : Bytes → ℕ) (start j : ℕ) (ps : List Participant)
    → Known d ps
    → Ready next done start ps
    → get d.id next ≡ some j
    → start ≤ j
next_after d next done start j [] known r g = absurd known
next_after d next done start j (p ∷ ps) (inl e) r g = ground (arith, ap (λ (x : Device). x.id) e)
next_after d next done start j (p ∷ ps) (inr (other, known)) r g =
    omega (arith, next_after d next done (start + p.shares) j ps known r.1 g)

-- Participants that are not the device keep their windows when one of its shares is done.
owner_other :
    (ps : List Participant) (id : Bytes) (done chosen : Bytes → ℕ) (start i : ℕ)
    → Unlisted id ps
    → owner ps (bump done id) chosen start i ≡ owner ps done (bump chosen id) start i
unfolding owner
owner_other [] id done chosen start i u = refl
owner_other (p ∷ ps) id done chosen start i u =
    ground
      (arith, owner_other ps id done chosen (start + p.shares) i u.1, bytes_beq_iff id p.device.id)

-- The first of a device's chosen shares has the device's next index, and the others its window
-- after that.
pub owner_step :
    (ps : List Participant) (d : Device) (next : Map Bytes ℕ) (done chosen : Bytes → ℕ)
    (start j i : ℕ)
    → Apart ps
    → Known d ps
    → Fits ps done (bump chosen d.id)
    → Ready next done start ps
    → get d.id next ≡ some j
    → (owner ps done (bump chosen d.id) start i
        ≡ (if nat_beq i j then some d else owner ps (bump done d.id) chosen start i))
      × (owner ps (bump done d.id) chosen start j ≡ none)
unfolding owner
owner_step [] d next done chosen start j i a known f r g = absurd known
owner_step (p ∷ ps) d next done chosen start j i a (inl e) f r g =
    let same : p.device.id ≡ d.id = ap (λ (x : Device). x.id) e in
    ground (
      arith,
      same,
      bytes_beq_iff d.id p.device.id,
      owner_other ps d.id done chosen (start + p.shares) i (subst (λ id. Unlisted id ps) same a.0),
      owner_before ps (bump done d.id) chosen (start + p.shares) j,
    )
owner_step (p ∷ ps) d next done chosen start j i a (inr (other, known)) f r g =
    let ih = owner_step ps d next done chosen (start + p.shares) j i a.1 known f.1 r.1 g in
    let far = next_after d next done (start + p.shares) j ps known r.1 g in
    ground (arith, ih, far, bytes_beq_iff d.id p.device.id)
