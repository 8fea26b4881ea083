-- ===== src/Shares/Started.antt =====
-- A communicator over assigned shares satisfies the invariant of communicators.
use meesign_server.Base.{
  ℕ, ◌+◌, ◌<◌, ◌≡◌, some, List, [], ◌∷◌, Bytes, arith, bytes_eq, nat_eq, Bool-cases, ltb, leb,
  length, sym, ap, subst, ◌∙◌, ◌&&◌, inl, inr,
}
use meesign_server.Base.All.{All, entries}
use meesign_server.Base.Exec.{Outcome, ok, err, panic, and_then, value_or}
use meesign_server.Base.Int.{u32}
use meesign_server.Base.Map.{Map, get, extend, IsMap, extend-IsMap}
use meesign_server.Communicator.{Communicator, new}
use meesign_server.Communicator.Indices.{IsValid, IsBounded}
use meesign_server.Persistence.Enums.{ProtoProtocolType}
use meesign_server.Persistence.Models.{Device, Participant}
use meesign_server.Shares.{
  restore, restored_devices, count_shares, assign, scan_shares, first_share_indices,
}
use meesign_server.Shares.Assign.{total, IsChoice, assign_exact}
use meesign_server.Shares.Restore.{restored-IsChoice}
use meesign_server.Shares.Windows.{count, owner, Fits}

-- A window ends with the shares of its participant.
owner_within :
    (ps : List Participant) (chosen : Bytes → ℕ) (start i : ℕ) (d : Device)
    → Fits ps (λ id. 0) chosen
    → owner ps (λ id. 0) chosen start i ≡ some d
    → i < start + total ps
unfolding owner
owner_within [] chosen start i d f e = absurd (cc)
owner_within (p ∷ ps) chosen start i d f e =
    ground (arith, owner_within ps chosen (start + p.shares) i d f.1, f.0, e)

IsBounded-entries :
    (m all : Map ℕ Device)
    → ((i : ℕ) (d : Device) → get i all ≡ some d → i + 1 < 4294967296)
    → All (λ p. get p.0 all ≡ some p.1) m
    → IsBounded m
IsBounded-entries [] all b h = tt
IsBounded-entries ((i, d) ∷ m) all b h = (b i d h.0, IsBounded-entries m all b h.1)

collected :
    (r : Outcome (List (ℕ × Device))) (m : Map ℕ Device)
    → and_then r (λ pairs. ok (extend [] pairs)) ≡ ok m
    → IsMap m
collected (ok pairs) m h = subst (λ n. IsMap n) (ap (value_or []) h) (extend-IsMap [] pairs tt)
collected (err a) m h = absurd (cc)
collected panic m h = absurd (cc)

assign-IsMap :
    (ps : List Participant) (ds : List Device) (m : Map ℕ Device) → assign ps ds ≡ ok m → IsMap m
unfolding assign
assign-IsMap ps ds m e = collected (scan_shares (first_share_indices ps) ds) m e

new-IsValid :
    (threshold : ℕ) (p : ProtoProtocolType) (m : Map ℕ Device) (c : Communicator)
    → new threshold p m ≡ ok c
    → IsMap m
    → IsBounded m
    → IsValid c
unfolding new get
new-IsValid threshold p m c e shares bounded =
    elim (Bool-cases (ltb 1 (length m) && leb threshold (u32 (length m)))) [
      | inl enough ↦
          subst (λ x. IsValid x) (ap (value_or c) (rw enough at e))
            (record { shares = shares; bounded = bounded; received = tt; expected = λ k g. cc })
      | inr few ↦ absurd (cc (rw few at e))
    ]

chosen-IsValid :
    (ps : List Participant) (ds : List Device) (threshold : ℕ) (p : ProtoProtocolType)
    (m : Map ℕ Device) (c : Communicator)
    → IsChoice ps ds
    → assign ps ds ≡ ok m
    → new threshold p m ≡ ok c
    → IsValid c
chosen-IsValid ps ds threshold p m c v e n =
    let (m', e', got) = assign_exact ps ds v in
    let same : m' ≡ m = ap (value_or []) (sym e' ∙ e) in
    let within : (i : ℕ) (d : Device) → get i m ≡ some d → i + 1 < 4294967296 = λ i d found. omega (
      arith,
      owner_within ps (count ds) 0 i d v.fits (sym (got i) ∙ ap (get i) same ∙ found),
      v.bounded,
    ) in
    new-IsValid threshold p m c n (assign-IsMap ps ds m e)
      (IsBounded-entries m m within (entries m (assign-IsMap ps ds m e)))

-- The communicators that are created when a task starts and when it is hydrated satisfy the
-- invariant of communicators: for distinct participants with fewer than 2^32 shares and fewer
-- than 2^32 chosen shares, of each participant at most its own, if the assignment of indices, its
-- restoration and the creation of both communicators succeed, then their indices are distinct and
-- in range and nothing is buffered that is not expected.
pub started-IsValid :
    (ps : List Participant) (ds : List Device) (threshold : ℕ) (p : ProtoProtocolType)
    (m m' : Map ℕ Device) (c c' : Communicator)
    → IsChoice ps ds
    → length ds < 4294967296
    → assign ps ds ≡ ok m
    → new threshold p m ≡ ok c
    → restore ps (count_shares [] ds) ≡ ok m'
    → new threshold p m' ≡ ok c'
    → IsValid c × IsValid c'
unfolding restore
started-IsValid ps ds threshold p m m' c c' v short e n e' n' = (
  chosen-IsValid ps ds threshold p m c v e n,
  chosen-IsValid ps (restored_devices (count_shares [] ds) ps) threshold p m' c'
      (restored-IsChoice ps ds v short) e' n',
)
