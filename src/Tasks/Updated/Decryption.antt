-- ===== src/Tasks/Updated/Decryption.antt =====
-- `update` of tasks/decrypt.rs keeps the information of its task.
use meesign_server.Base.{Option, none, some, List, Bytes, not, nat_beq, ltb}
use meesign_server.Base.Exec.{Exec, gets}
use meesign_server.Communicator.{receive_messages}
use meesign_server.Communicator
use meesign_server.Communicator.Messages.{Crypto, ClientMessage}
use meesign_server.Protocols.{round, last_round, advance, finalize}
use meesign_server.Tasks.DecryptTask
use meesign_server.Tasks.Info.{TaskInfo, RoundUpdate, failed, finished_new, next_round}
use meesign_server.Tasks.Updated.{Keeps, Tells, bind-Tells, if-Tells, continue-Keeps, if-Keeps}

module _ ⦃x : Crypto⦄ (info : TaskInfo) where
  abbrev pub of_decrypt : DecryptTask.DecryptTask → TaskInfo
  of_decrypt t = t.task_info

  abbrev decrypt_ended : Option Bytes → Exec DecryptTask.DecryptTask RoundUpdate
  decrypt_ended o = elim o [
    | none ↦
        gets (λ t.
          failed (record { task_info = t.task_info; reason = "Task failed (data not output)" }))
    | some bytes ↦ DecryptTask.complete bytes
  ]

  decrypt_ended-Tells : (o : Option Bytes) → Tells of_decrypt info (decrypt_ended o)
  unfolding DecryptTask.complete finished_new
  decrypt_ended-Tells none t h = (h, h)
  decrypt_ended-Tells (some bytes) t h = (h, h)

  decrypt_finalize-Tells : Tells of_decrypt info DecryptTask.finalize_task
  unfolding DecryptTask.finalize_task
  decrypt_finalize-Tells =
      bind-Tells of_decrypt info (DecryptTask.relayed_protocol (λ s. finalize s.0 s.1))
        decrypt_ended (λ t h. h) decrypt_ended-Tells

  decrypt_advance-Tells : Tells of_decrypt info DecryptTask.advance_task
  unfolding DecryptTask.advance_task
  decrypt_advance-Tells =
      bind-Tells of_decrypt info (DecryptTask.relayed_protocol (λ s. advance s.0 s.1))
        (λ a. gets (λ t. next_round (round t.protocol))) (λ t h. h) (λ a t h. (tt, h))

  decrypt_next-Tells : Tells of_decrypt info DecryptTask.next_step
  unfolding DecryptTask.next_step DecryptTask.start_task
  decrypt_next-Tells t h =
      if-Tells of_decrypt info (nat_beq (round t.protocol) 0) _ _ (λ t h. (tt, h))
        (if-Tells of_decrypt info (ltb (round t.protocol) (last_round t.protocol)) _ _
          decrypt_advance-Tells decrypt_finalize-Tells)
        t h

  decrypt_internal-Keeps :
      (id : Bytes) (messages : List ClientMessage)
      → Keeps of_decrypt info (DecryptTask.update_internal id messages)
  unfolding DecryptTask.update_internal
  decrypt_internal-Keeps id messages t h =
      if-Keeps of_decrypt info (not (Communicator.waiting_for t.communicator id)) _ _ (λ t h. h)
        (λ t h.
          continue-Keeps of_decrypt info _ (λ a t h. h)
            (receive_messages id messages t.communicator).0 _ h)
        t h

  pub decrypt_update-Tells :
      (id : Bytes) (messages : List ClientMessage)
      → Tells of_decrypt info (DecryptTask.update id messages)
  unfolding DecryptTask.update
  decrypt_update-Tells id messages =
      bind-Tells of_decrypt info (DecryptTask.update_internal id messages) _
        (decrypt_internal-Keeps id messages)
        (λ full. if-Tells of_decrypt info full _ _ decrypt_next-Tells (λ t h. (tt, h)))
