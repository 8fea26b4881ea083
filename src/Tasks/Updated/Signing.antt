-- ===== src/Tasks/Updated/Signing.antt =====
-- `update` of tasks/sign.rs keeps the information of its task.
use meesign_server.Base.{Option, none, some, List, Bytes, not, nat_beq, ltb}
use meesign_server.Base.Exec.{Exec, gets}
use meesign_server.Communicator.{receive_messages}
use meesign_server.Communicator
use meesign_server.Communicator.Messages.{Crypto, ClientMessage}
use meesign_server.Protocols.{round, last_round, advance, finalize}
use meesign_server.Tasks.Info.{TaskInfo, RoundUpdate, failed, finished_new, next_round}
use meesign_server.Tasks.SignTask
use meesign_server.Tasks.Updated.{Keeps, Tells, bind-Tells, if-Tells, continue-Keeps, if-Keeps}

module _ ⦃x : Crypto⦄ (info : TaskInfo) where
  abbrev pub of_sign : SignTask.SignTask → TaskInfo
  of_sign t = t.task_info

  abbrev sign_ended : Option Bytes → Exec SignTask.SignTask RoundUpdate
  sign_ended o = elim o [
    | none ↦ gets (λ t.
        failed (record { task_info = t.task_info; reason = "Task failed (signature not output)" }))
    | some bytes ↦ SignTask.complete bytes
  ]

  sign_ended-Tells : (o : Option Bytes) → Tells of_sign info (sign_ended o)
  unfolding SignTask.complete finished_new
  sign_ended-Tells none t h = (h, h)
  sign_ended-Tells (some bytes) t h = (h, h)

  pub sign_finalize-Tells : Tells of_sign info SignTask.finalize_task
  unfolding SignTask.finalize_task
  sign_finalize-Tells =
      bind-Tells of_sign info (SignTask.relayed_protocol (λ s. finalize s.0 s.1)) sign_ended
        (λ t h. h) sign_ended-Tells

  pub sign_advance-Tells : Tells of_sign info SignTask.advance_task
  unfolding SignTask.advance_task
  sign_advance-Tells =
      bind-Tells of_sign info (SignTask.relayed_protocol (λ s. advance s.0 s.1))
        (λ a. gets (λ t. next_round (round t.protocol))) (λ t h. h) (λ a t h. (tt, h))

  pub sign_next-Tells : Tells of_sign info SignTask.next_step
  unfolding SignTask.next_step SignTask.start_task
  sign_next-Tells t h =
      if-Tells of_sign info (nat_beq (round t.protocol) 0) _ _ (λ t h. (tt, h))
        (if-Tells of_sign info (ltb (round t.protocol) (last_round t.protocol)) _ _
          sign_advance-Tells sign_finalize-Tells)
        t h

  pub sign_internal-Keeps :
      (id : Bytes) (messages : List ClientMessage)
      → Keeps of_sign info (SignTask.update_internal id messages)
  unfolding SignTask.update_internal
  sign_internal-Keeps id messages t h =
      if-Keeps of_sign info (not (Communicator.waiting_for t.communicator id)) _ _ (λ t h. h)
        (λ t h.
          continue-Keeps of_sign info _ (λ a t h. h) (receive_messages id messages t.communicator).0
            _ h)
        t h

  pub sign_update-Tells :
      (id : Bytes) (messages : List ClientMessage)
      → Tells of_sign info (SignTask.update id messages)
  unfolding SignTask.update
  sign_update-Tells id messages =
      bind-Tells of_sign info (SignTask.update_internal id messages) _
        (sign_internal-Keeps id messages)
        (λ full. if-Tells of_sign info full _ _ sign_next-Tells (λ t h. (tt, h)))
