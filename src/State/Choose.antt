-- ===== src/State/Choose.antt =====
-- `choose_active_shares` of state.rs.
use meesign_server.Base.{◌%◌, ℕ, ◌+◌, List, [], ◌∷◌, keep, leb, ltb, sum, if◌then◌else◌}
use meesign_server.Base.Exec.{Exec, ◌>>=◌, ◌>>◌, pure, lift}
use meesign_server.Base.Int.{u32}
use meesign_server.Base.Map.{Map}
use meesign_server.Persistence.Models.{Device, Participant}
use meesign_server.Shares.{sorted, assign, share_devices, count_shares}
use meesign_server.State.{State, Services, database, get_device_last_activation}
use meesign_server.Tasks.Info.{all_shares}
use meesign_server.Tasks.Voting.{VotingTask, device_accepted}

-- `u64` arithmetic of the release profile.
abbrev pub u64 : ℕ → ℕ
u64 n = n % 18446744073709551616

-- The participants of the devices that accepted.
unfoldable pub accepting : VotingTask → List Participant
unfolding device_accepted
accepting t = keep (λ p. device_accepted t p.device.id) t.task_info.participants

-- Those that made a request in the last five seconds.
unfoldable pub connected :
    {R Tx : Type 0} → ℕ → List Participant → Exec (State R Tx) (List Participant)
unfolding get_device_last_activation
connected now [] = pure []
connected now (p ∷ ps) = do
  last_active ← get_device_last_activation now p.device.id
  rest ← connected now ps
  pure (if ltb (u64 (now + 18446744073709551611)) last_active then p ∷ rest else rest)

-- The connected participants where they have enough shares, else all that accepted.
unfoldable pub candidates : VotingTask → List Participant → List Participant
unfolding accepting sum
candidates t ps = if leb t.accept_threshold (u32 (sum (all_shares ps))) then ps else accepting t

unfoldable pub choose_active_shares :
    {R Tx : Type 0} → Services R Tx → ℕ → VotingTask → Exec (State R Tx) (Map ℕ Device)
unfolding accepting connected candidates share_devices count_shares assign sorted
choose_active_shares v now t = do
  ps ← connected now (accepting t)
  let chosen = v.choose_multiple (share_devices (candidates t ps)) t.accept_threshold
  database v (v.db.set_task_active_shares t.task_info.id (count_shares [] chosen))
  lift (assign (sorted t.task_info.participants) chosen)
