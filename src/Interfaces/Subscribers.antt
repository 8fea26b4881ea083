-- ===== src/Interfaces/Subscribers.antt =====
-- `check_subscribers` of interfaces/timer.rs: who stays subscribed, and who counts as active.
use meesign_server.Base.{
  ℕ, ◌≡◌, refl, ◌∙◌, ap, Bool, true, false, Option, none, some, List, [], ◌∷◌, Bytes, bytes_eq,
  arith, if◌then◌else◌, bytes_beq_iff, bytes_beq,
}
use meesign_server.Base.Map.{Map, get, get-remove, get-insert, IsMap, remove-IsMap}
use meesign_server.Interfaces.{Web}
use meesign_server.Interfaces.Timer.{
  closed_devices, activate_open, remove_devices, check_subscribers,
}
use meesign_server.State.{State, activate_device, remove_subscriber}

abbrev listed : Bytes → List Bytes → Bool
listed d [] = false
listed d (i ∷ ids) = let rest = listed d ids in if bytes_beq i d then true else rest

module _ {Tx : Type 0} (w : Web Tx) where
  -- The channel of a device, where it is open.
  abbrev pub open_channel : Option Tx → Option Tx
  open_channel none = none
  open_channel (some tx) = if w.is_closed tx then none else some tx

  -- The activation of a device that has such a channel.
  abbrev pub active_at : ℕ → Option Tx → Option ℕ → Option ℕ
  active_at now none old = old
  active_at now (some tx) old = if w.is_closed tx then old else some now

  unlisted : (d : Bytes) (m : Map Bytes Tx) → get d m ≡ none → listed d (closed_devices w m) ≡ false
  unfolding closed_devices get
  unlisted d [] h = refl
  unlisted d ((i, tx) ∷ m) h = ground (arith, unlisted d m)

  closed_devices_lem :
      (d : Bytes) (m : Map Bytes Tx)
      → IsMap m
      → (if listed d (closed_devices w m) then none else get d m) ≡ open_channel (get d m)
  unfolding closed_devices get
  closed_devices_lem d [] h = refl
  closed_devices_lem d ((i, tx) ∷ m) h =
      ground (arith, bytes_beq_iff i d, unlisted d m, closed_devices_lem d m h.1)

module _ {R Tx : Type 0} (w : Web Tx) (now : ℕ) where
  remove_devices-subscribers :
      (d : Bytes) (ids : List Bytes) (s : State R Tx)
      → get d (remove_devices w now ids s).subscribers
        ≡ (if listed d ids then none else get d s.subscribers)
  unfolding remove_devices remove_subscriber
  remove_devices-subscribers d [] s = refl
  remove_devices-subscribers d (i ∷ ids) s = ground (
    arith,
    remove_devices-subscribers d ids (remove_subscriber i s),
    get-remove i d s.subscribers,
  )

  remove_devices-IsMap :
      (ids : List Bytes) (s : State R Tx)
      → IsMap s.subscribers
      → IsMap (remove_devices w now ids s).subscribers
  unfolding remove_devices remove_subscriber
  remove_devices-IsMap [] s h = h
  remove_devices-IsMap (i ∷ ids) s h =
      remove_devices-IsMap ids (remove_subscriber i s) (remove-IsMap i s.subscribers h)

  remove_devices-activations :
      (ids : List Bytes) (s : State R Tx)
      → (remove_devices w now ids s).device_last_activations ≡ s.device_last_activations
  unfolding remove_devices remove_subscriber
  remove_devices-activations [] s = refl
  remove_devices-activations (i ∷ ids) s = remove_devices-activations ids (remove_subscriber i s)

  activate_open-subscribers :
      (m : Map Bytes Tx) (s : State R Tx) → (activate_open w now m s).subscribers ≡ s.subscribers
  unfolding activate_open activate_device
  activate_open-subscribers [] s = refl
  activate_open-subscribers ((d, tx) ∷ m) s = ground (
    arith,
    activate_open-subscribers m (if w.is_closed tx then s else (activate_device now d s).1),
  )

  activate_open-activations :
      (d : Bytes) (m : Map Bytes Tx) (s : State R Tx)
      → IsMap m
      → get d (activate_open w now m s).device_last_activations
        ≡ active_at w now (get d m) (get d s.device_last_activations)
  unfolding activate_open activate_device get
  activate_open-activations d [] s h = refl
  activate_open-activations d ((i, tx) ∷ m) s h = ground (
    arith,
    bytes_beq_iff i d,
    get-insert i d now s.device_last_activations,
    activate_open-activations d m (if w.is_closed tx then s else (activate_device now i s).1) h.1,
  )

  -- The periodic check of subscribers, where no device has two channels, keeps just the devices
  -- whose channel is open, each with its channel, records the current time as the last activation
  -- of just these, and leaves no device with two channels.
  pub subscribers_pruned :
      (s : State R Tx) (d : Bytes)
      → IsMap s.subscribers
      → (get d (check_subscribers w now s).1.subscribers ≡ open_channel w (get d s.subscribers))
        × (get d (check_subscribers w now s).1.device_last_activations
            ≡ active_at w now (get d s.subscribers) (get d s.device_last_activations))
        × IsMap (check_subscribers w now s).1.subscribers
  unfolding check_subscribers
  subscribers_pruned s d h =
      let opened = activate_open w now s.subscribers s in
      let same : opened.subscribers ≡ s.subscribers = activate_open-subscribers s.subscribers s in
      (
        remove_devices-subscribers d (closed_devices w s.subscribers) opened
            ∙ ap (λ m. if listed d (closed_devices w s.subscribers) then none else get d m) same
            ∙ closed_devices_lem w d s.subscribers h,
        ap (get d) (remove_devices-activations (closed_devices w s.subscribers) opened)
            ∙ activate_open-activations d s.subscribers s h,
        remove_devices-IsMap (closed_devices w s.subscribers) opened (rw same h),
      )
