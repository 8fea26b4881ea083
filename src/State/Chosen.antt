-- ===== src/State/Chosen.antt =====
-- The active shares that `choose_active_shares` of state.rs chooses are restored after a restart.
use meesign_server.Base.{ℕ, ◌≤◌, List, Bytes, bytes_eq, nat_eq, length}
use meesign_server.Base.All.{All}
use meesign_server.Base.Map.{Map}
use meesign_server.Persistence.Models.{Device}
use meesign_server.Shares.Windows.{count}
use meesign_server.State.{State}

-- What is documented of `choose_multiple`: each chosen share is one of the given ones, chosen once,
-- and there are at most as many as are asked for.
pub record IsSample (f : List Device → ℕ → List Device) : Type 1 where
  pub among : (P : Device → Type 0) (ds : List Device) (n : ℕ) → All P ds → All P (f ds n)
  pub no_more : (ds : List Device) (n : ℕ) (id : Bytes) → count (f ds n) id ≤ count ds id
  pub at_most : (ds : List Device) (n : ℕ) → length (f ds n) ≤ n
