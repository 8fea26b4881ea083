-- ===== src/Tasks/Progress.antt =====
-- How the round of a running task moves with the updates that it reports.
use meesign_server.Base.{inr, inl, true, ℕ, ◌+◌, ◌≤◌, ◌≡◌, ◌⊎◌, Bool, false}
use meesign_server.Base.Exec.{Outcome, ok, err, panic}
use meesign_server.Tasks.Info.{
  RoundUpdate, listen, group_certificates_sent, next_round, finished, failed,
}

-- An update with the rounds before and after it, of a protocol with the given last round.
abbrev pub Progress : RoundUpdate → ℕ → ℕ → ℕ → Type 0
Progress listen last old new = new ≡ old
Progress group_certificates_sent last old new = ⊥
Progress (next_round k) last old new = (k ≡ old + 1) × (new ≡ k) × (k ≤ last)
Progress (finished k done) last old new = (old ≡ last) × (new ≡ last + 1) × (k ≡ new)
Progress (failed done) last old new = (old ≡ last) × (new ≡ last + 1)

-- What a call with messages may do: an error leaves the round, and a panic happens only on a
-- message of the wrong shape or once the last round has been left.
abbrev pub Moves : Outcome RoundUpdate → Bool → ℕ → ℕ → ℕ → Type 0
Moves (ok u) fit last old new = Progress u last old new
Moves (err e) fit last old new = new ≡ old
Moves panic fit last old new = (fit ≡ false) ⊎ ((old ≡ last) × (new ≡ last + 1))

pub Moves-fit :
    (r : Outcome RoundUpdate) (fit : Bool) (last old new : ℕ)
    → Moves r true last old new
    → Moves r fit last old new
Moves-fit (ok u) fit last old new h = h
Moves-fit (err e) fit last old new h = h
Moves-fit panic fit last old new (inl e) = absurd (cc)
Moves-fit panic fit last old new (inr e) = inr e
