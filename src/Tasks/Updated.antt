-- ===== src/Tasks/Updated.antt =====
-- Methods of the running tasks of tasks that keep the information of their task, and how they
-- compose.
pub mod Signing
pub mod Decryption
pub mod Groups
pub mod Documents
pub mod AllTasks
use meesign_server.Base.{
  ℕ, ◌≡◌, refl, sym, ap, ◌∙◌, Bool, true, false, Option, none, some, List, Bytes, if◌then◌else◌,
  not, nat_beq, ltb, leb, ◌&&◌,
}
use meesign_server.Base.Exec.{
  Exec, Outcome, ok, err, panic, continue, ◌>>=◌, lift_assert, lift, raise, general_protocol_error,
  pure, gets,
}
use meesign_server.Communicator.{receive_messages}
use meesign_server.Communicator
use meesign_server.Communicator.Messages.{Crypto, ClientMessage}
use meesign_server.Protocols.{round, last_round, advance, finalize}
use meesign_server.Tasks.DecryptTask
use meesign_server.Tasks.GroupTask
use meesign_server.Tasks.Helper.{Helper}
use meesign_server.Tasks.Info.{
  TaskInfo, RoundUpdate, FinishedTask, finished, failed, finished_new, next_round,
}
use meesign_server.Tasks.Running.{Running, task_info, update}
use meesign_server.Tasks.SignPdfTask
use meesign_server.Tasks.SignTask

-- A task that ends is reported with the information.
abbrev pub Reports : TaskInfo → Outcome RoundUpdate → Type 0
Reports info (ok (finished n done)) = done.task_info ≡ info
Reports info (ok (failed f)) = f.task_info ≡ info
Reports info _ = Unit

module _ {T : Type 0} (info_of : T → TaskInfo) (info : TaskInfo) where
  abbrev pub Keeps : {A : Type 0} → Exec T A → Type 0
  Keeps m = (t : T) → info_of t ≡ info → info_of (m t).1 ≡ info

  -- What a method returns, and leaves.
  abbrev pub Told : Outcome RoundUpdate × T → Type 0
  Told r = Reports info r.0 × (info_of r.1 ≡ info)

  abbrev pub Tells : Exec T RoundUpdate → Type 0
  Tells m = (t : T) → info_of t ≡ info → Told (m t)

  pub continue-Tells :
      {A : Type 0} (f : A → Exec T RoundUpdate)
      → ((a : A) → Tells (f a))
      → (r : Outcome A) → Tells (continue r f)
  continue-Tells f hf (ok a) t h = hf a t h
  continue-Tells f hf (err e) t h = (tt, h)
  continue-Tells f hf panic t h = (tt, h)

  pub bind-Tells :
      {A : Type 0} (m : Exec T A) (f : A → Exec T RoundUpdate)
      → Keeps m
      → ((a : A) → Tells (f a))
      → Tells (m >>= f)
  bind-Tells m f hm hf t h = continue-Tells f hf (m t).0 (m t).1 (hm t h)

  pub if-Tells :
      (b : Bool) (m n : Exec T RoundUpdate) → Tells m → Tells n → Tells (if b then m else n)
  if-Tells true m n hm hn = hm
  if-Tells false m n hm hn = hn

  pub continue-Keeps :
      {A B : Type 0} (f : A → Exec T B)
      → ((a : A) → Keeps (f a))
      → (r : Outcome A) → Keeps (continue r f)
  continue-Keeps f hf (ok a) t h = hf a t h
  continue-Keeps f hf (err e) t h = h
  continue-Keeps f hf panic t h = h

  pub if-Keeps :
      {A : Type 0} (b : Bool) (m n : Exec T A) → Keeps m → Keeps n → Keeps (if b then m else n)
  if-Keeps true m n hm hn = hm
  if-Keeps false m n hm hn = hn
