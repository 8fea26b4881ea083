-- ===== src/Interfaces/Served.antt =====
-- interfaces/grpc.rs: the states that a sequence of requests leads to.
use meesign_server.Base.{ℕ, ◌≡◌, ◌≢◌, none, some, nat_eq, sym, ap, ◌∙◌}
use meesign_server.Base.Map.{get}
use meesign_server.Communicator.Messages.{Crypto}
use meesign_server.Interfaces.{Web}
use meesign_server.Interfaces.Auth.{RequestMeta}
use meesign_server.Interfaces.Grpc.{Surroundings}
use meesign_server.Interfaces.Messages.{Rpc}
use meesign_server.Interfaces.Progress.{serve-Serves}
use meesign_server.Interfaces.Service.{serve}
use meesign_server.State.{State, Services}
use meesign_server.State.Phases.{Follows, Follows-refl, cache}
use meesign_server.Tasks.Task.{Task}

-- The second state is one that requests lead to from the first. Every request draws an identifier
-- that no cached task has.
pub data Served {R Tx : Type 0} ⦃x : Crypto⦄ (w : Web Tx) (v : Services R Tx)
    : State R Tx → State R Tx → Type 0 where
  unserved : {s : State R Tx} → Served w v s s
  request :
      {s s' : State R Tx} (e : Surroundings Tx) (meta : RequestMeta) (r : Rpc)
      → get e.new_id (cache s') ≡ none
      → Served w v s s'
      → Served w v s (serve w v e meta r s').1

module _ {R Tx : Type 0} ⦃x : Crypto⦄ (w : Web Tx) (v : Services R Tx) where
  fresh_lem :
      (s : State R Tx) (i k : ℕ) (t : Task)
      → get i (cache s) ≡ none
      → get k (cache s) ≡ some t
      → i ≢ k
  fresh_lem s i k t fresh found same =
      absurd (none_some (sym fresh ∙ ap (λ j. get j (cache s)) same ∙ found))
    where
      none_some : none ≢ some t
      none_some = λ p. absurd (cc)

  -- Whatever sequence of requests of whatever kinds the service handles, from whomever they come,
  -- if each request draws an identifier for a new task that no cached task has: each cached task
  -- stays in the cache, a voting one may go to any phase, a running one only runs on, finishes or
  -- fails, and a declined, finished or failed one stays so, whatever the database, the channels
  -- and the other crates answer, and whether the requests succeed, are refused or panic.
  pub requests_lifecycle :
      {s s' : State R Tx}
      → Served w v s s'
      → (k : ℕ) (t : Task) → get k (cache s) ≡ some t
      → (t' : Task) × (get k (cache s') ≡ some t') × Follows t t'
  requests_lifecycle unserved k t found = (t, found, Follows-refl t)
  requests_lifecycle (request {s' = s'} e meta r fresh before) k t found =
      let (t', found', f) = requests_lifecycle before k t found in
      serve-Serves k t w meta v e (fresh_lem s' e.new_id k t' fresh found') r s' (t', found', f)
