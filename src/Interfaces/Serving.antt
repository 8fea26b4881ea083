-- ===== src/Interfaces/Serving.antt =====
-- Handlers of interfaces/grpc.rs that lead one cached task on, and how they compose.
use meesign_server.Base.{
  not, ℕ, Bool, true, false, Option, none, some, Bytes, nat_eq, if◌then◌else◌,
}
use meesign_server.Interfaces.{
  ok_or, Status, unwrapped, Web, Handler, Reply, response, refused, crashed, proceed, ◌>>=◌,
}
use meesign_server.Interfaces.Auth.{RequestMeta, extract_device_id, check_client_auth, check_device}
use meesign_server.State.{device_exists, State}
use meesign_server.State.Requests.{Followed}
use meesign_server.Tasks.Task.{Task}

module _ {R Tx : Type 0} (k : ℕ) (t : Task) where
  -- A request leads the task on.
  abbrev pub Serves : {A : Type 0} → Handler (State R Tx) A → Type 0
  Serves m = (s : State R Tx) → Followed k t s → Followed k t (m s).1

  pub proceed-Serves :
      {A B : Type 0} (f : A → Handler (State R Tx) B)
      → ((a : A) → Serves (f a))
      → (r : Reply A) → Serves (proceed r f)
  proceed-Serves f hf (response a) s h = hf a s h
  proceed-Serves f hf (refused e) s h = h
  proceed-Serves f hf crashed s h = h

  pub if-Serves :
      {A : Type 0} (b : Bool) (m n : Handler (State R Tx) A)
      → Serves m
      → Serves n
      → Serves (if b then m else n)
  if-Serves true m n hm hn = hm
  if-Serves false m n hm hn = hn

  pub bind-Serves :
      {A B : Type 0} (m : Handler (State R Tx) A) (f : A → Handler (State R Tx) B)
      → Serves m
      → ((a : A) → Serves (f a))
      → Serves (m >>= f)
  bind-Serves m f hm hf s h = proceed-Serves f hf (m s).0 (m s).1 (hm s h)

  pub unwrapped-Serves : {A : Type 0} (o : Option A) → Serves (unwrapped o)
  unwrapped-Serves none s h = h
  unwrapped-Serves (some a) s h = h

  pub ok_or-Serves : {A : Type 0} (status : Status) (o : Option A) → Serves (ok_or status o)
  ok_or-Serves status none s h = h
  ok_or-Serves status (some a) s h = h

  module _ (w : Web Tx) (meta : RequestMeta) where
    pub check-Serves : (required : Bool) → Serves (check_client_auth w meta required)
    unfolding check_client_auth
    check-Serves required = check_device-Serves (extract_device_id w meta)
      where
        check_device-Serves : (o : Option Bytes) → Serves (check_device w o required)
        check_device-Serves none s h = if-Serves required _ _ (λ s h. h) (λ s h. h) s h
        check_device-Serves (some d) s h =
            if-Serves (not (device_exists d s)) _ _ (λ s h. h) (λ s h. h) s h

    -- A handler behind its check.
    pub checked :
        {A : Type 0} (required : Bool) (f : Unit {0} → Handler (State R Tx) A)
        → Serves (f tt)
        → Serves (check_client_auth w meta required >>= f)
    checked required f hf s h =
        proceed-Serves f (λ a. hf) (check_client_auth w meta required s).0 _
          (check-Serves required s h)
