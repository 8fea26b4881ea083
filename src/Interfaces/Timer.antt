-- ===== src/Interfaces/Timer.antt =====
-- interfaces/timer.rs: what happens every second.
use meesign_server.Base.{ℕ, List, [], ◌∷◌, Bytes, bytes_eq, if◌then◌else◌}
use meesign_server.Base.Exec.{Outcome, ok, err, panic}
use meesign_server.Base.Map.{Map}
use meesign_server.Communicator.Messages.{Crypto}
use meesign_server.Interfaces.{Web, Handler, Reply, response, crashed, ◌>>◌}
use meesign_server.State.{State, Services, activate_device, remove_subscriber}
use meesign_server.State.Update.{restart_stale_tasks}

-- `check_tasks(..).await.unwrap()`
abbrev pub unwrap_reply : {A : Type 0} → Outcome A → Reply A
unwrap_reply (ok a) = response a
unwrap_reply (err e) = crashed
unwrap_reply panic = crashed

unfoldable pub check_tasks :
    {R Tx : Type 0} → ⦃x : Crypto⦄ → Services R Tx → ℕ → Handler (State R Tx) (Unit {0})
unfolding restart_stale_tasks
check_tasks v now s =
    (unwrap_reply (restart_stale_tasks v now s).0, (restart_stale_tasks v now s).1)

-- The devices whose channel is closed.
unfoldable pub closed_devices : {Tx : Type 0} → Web Tx → Map Bytes Tx → List Bytes
closed_devices w [] = []
closed_devices w ((device_id, tx) ∷ subscribers) =
    let rest = closed_devices w subscribers in if w.is_closed tx then device_id ∷ rest else rest

module _ {R Tx : Type 0} (w : Web Tx) (now : ℕ) where
  -- The other devices count as active.
  unfoldable pub activate_open : Map Bytes Tx → State R Tx → State R Tx
  unfolding activate_device
  activate_open [] s = s
  activate_open ((device_id, tx) ∷ subscribers) s =
      activate_open subscribers (if w.is_closed tx then s else (activate_device now device_id s).1)

  unfoldable pub remove_devices : List Bytes → State R Tx → State R Tx
  unfolding remove_subscriber
  remove_devices [] s = s
  remove_devices (device_id ∷ ids) s = remove_devices ids (remove_subscriber device_id s)

  unfoldable pub check_subscribers : Handler (State R Tx) (Unit {0})
  unfolding closed_devices activate_open remove_devices
  check_subscribers s =
      (response tt, remove_devices (closed_devices w s.subscribers) (activate_open s.subscribers s))

-- One round of the loop of `run_timer`.
unfoldable pub tick :
    {R Tx : Type 0} → ⦃x : Crypto⦄ → Web Tx → Services R Tx → ℕ → Handler (State R Tx) (Unit {0})
unfolding check_tasks check_subscribers
tick w v now = check_tasks v now >> check_subscribers w now
