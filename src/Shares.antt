-- ===== src/Shares.antt =====
-- The assignment of protocol indices to active shares: `choose_active_shares` of state.rs when a
-- task is accepted, and `hydrate_communicator` of cached_task_store.rs after a restart.
pub mod Windows
pub mod Assign
pub mod Restore
pub mod Started
use meesign_server.Base.{
  ℕ, zero, suc, ◌+◌, ◌-◌, ◌≤◌, Bool, true, false, Option, none, some, List, [], ◌∷◌, ◌++◌, map,
  Bytes, bytes_eq, nat_eq, bytes_beq, bytes_leb, sort_by, sum, keep, leb, ltb, replicate,
  if◌then◌else◌,
}
use meesign_server.Base.Exec.{Outcome, ok, panic, and_then}
use meesign_server.Base.Int.{u32}
use meesign_server.Base.Map.{Map, get, insert, extend}
use meesign_server.Persistence.Models.{Device, Participant}

-- `sort_by(|a, b| a.device.id.cmp(&b.device.id))`
unfoldable pub sorted : List Participant → List Participant
sorted = sort_by (λ a b. bytes_leb a.device.id b.device.id)

-- The `scan` that gives each participant the index of its first share.
unfoldable pub scan_first : ℕ → List Participant → List (Bytes × ℕ)
scan_first idx [] = []
scan_first idx (p ∷ ps) = (p.device.id, idx) ∷ scan_first (u32 (idx + p.shares)) ps

unfoldable pub first_share_indices : List Participant → Map Bytes ℕ
unfolding scan_first
first_share_indices ps = extend [] (scan_first 0 ps)

-- The `scan` that gives each chosen share the next index of its device. A device that is not in
-- the map is a panic.
unfoldable pub scan_shares : Map Bytes ℕ → List Device → Outcome (List (ℕ × Device))
scan_shares share_indices [] = ok []
scan_shares share_indices (d ∷ ds) = elim (get d.id share_indices) [
  | none ↦ panic
  | some i ↦
      and_then (scan_shares (insert d.id (u32 (i + 1)) share_indices) ds)
        (λ rest. ok ((i, d) ∷ rest))
]

-- The protocol indices of the chosen shares.
unfoldable pub assign : List Participant → List Device → Outcome (Map ℕ Device)
unfolding first_share_indices scan_shares
assign ps ds = and_then (scan_shares (first_share_indices ps) ds) (λ pairs. ok (extend [] pairs))

-- The shares that may be chosen, each as its device.
unfoldable pub share_devices : List Participant → List Device
share_devices [] = []
share_devices (p ∷ ps) = replicate p.shares p.device ++ share_devices ps

-- `*active_shares.entry(device.id.clone()).or_default() += 1`
unfoldable pub or_zero : Option ℕ → ℕ
or_zero none = 0
or_zero (some n) = n

unfoldable pub count_shares : Map Bytes ℕ → List Device → Map Bytes ℕ
unfolding or_zero
count_shares active_shares [] = active_shares
count_shares active_shares (d ∷ ds) =
    count_shares (insert d.id (u32 (or_zero (get d.id active_shares) + 1)) active_shares) ds

-- The active shares that are restored: the stored number for each participant that has one.
unfoldable pub restored_devices : Map Bytes ℕ → List Participant → List Device
restored_devices active_shares [] = []
restored_devices active_shares (p ∷ ps) =
    replicate (or_zero (get p.device.id active_shares)) p.device
    ++ restored_devices active_shares ps

-- The mapping of `hydrate_communicator`.
unfoldable pub restore : List Participant → Map Bytes ℕ → Outcome (Map ℕ Device)
restore ps active_shares = assign ps (restored_devices active_shares ps)
