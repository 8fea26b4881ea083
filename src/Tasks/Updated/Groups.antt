-- ===== src/Tasks/Updated/Groups.antt =====
-- `update` of tasks/group.rs keeps the information of its task.
use meesign_server.Base.{
  Bool, true, false, Option, none, some, List, Bytes, not, nat_beq, ltb, leb, ◌&&◌,
}
use meesign_server.Base.Exec.{◌>>◌, modify, zoom, Exec, lift_assert, gets}
use meesign_server.Communicator.{receive_messages}
use meesign_server.Communicator
use meesign_server.Communicator.Messages.{Crypto, ClientMessage}
use meesign_server.Protocols.{round, last_round, advance, finalize}
use meesign_server.Tasks.GroupTask
use meesign_server.Tasks.Helper.{Helper}
use meesign_server.Tasks.Info.{
  group_established, TaskInfo, RoundUpdate, finished, failed, finished_new, next_round,
}
use meesign_server.Tasks.Updated.{Tells, continue-Tells, bind-Tells, if-Tells}

module _ ⦃x : Crypto⦄ (h : Helper) (info : TaskInfo) where
  abbrev pub of_group : GroupTask.GroupTask → TaskInfo
  of_group t = t.task_info

  abbrev concluded : Bytes → Option Bytes → Exec GroupTask.GroupTask RoundUpdate
  concluded id certificate = do
    modify (λ t. record t { communicator = Communicator.clear_input t.communicator })
    gets (λ t.
        finished (round t.protocol)
          (finished_new t.task_info (group_established (GroupTask.established t id certificate))))

  concluded-Tells :
      (id : Bytes) (certificate : Option Bytes) → Tells of_group info (concluded id certificate)
  unfolding finished_new
  concluded-Tells id certificate t g = (g, g)

  establish-Tells : (id : Bytes) → Tells of_group info (GroupTask.establish h id)
  unfolding GroupTask.establish
  establish-Tells id t g =
      continue-Tells of_group info (concluded id) (concluded-Tells id)
        (GroupTask.group_certificate h t id) t g

  abbrev group_ended : Option Bytes → Exec GroupTask.GroupTask RoundUpdate
  group_ended o = elim o [
    | none ↦ gets (λ t.
        failed (record { task_info = t.task_info; reason = "Task failed (group key not output)" }))
    | some id ↦ GroupTask.establish h id
  ]

  group_ended-Tells : (o : Option Bytes) → Tells of_group info (group_ended o)
  group_ended-Tells none t g = (g, g)
  group_ended-Tells (some id) t g = establish-Tells id t g

  group_finalize-Tells : Tells of_group info (GroupTask.finalize_task h)
  unfolding GroupTask.finalize_task
  group_finalize-Tells =
      bind-Tells of_group info (GroupTask.relayed_protocol (λ s. finalize s.0 s.1)) group_ended
        (λ t g. g) group_ended-Tells

  group_advance-Tells : Tells of_group info (GroupTask.advance_task h)
  unfolding GroupTask.advance_task
  group_advance-Tells =
      bind-Tells of_group info (GroupTask.relayed_protocol (λ s. advance s.0 s.1))
        (λ a. gets (λ t. next_round (round t.protocol))) (λ t g. g) (λ a t g. (tt, g))

  group_next-Tells : Tells of_group info (GroupTask.next_step h)
  unfolding GroupTask.next_step GroupTask.start_task GroupTask.send_certificates
  group_next-Tells t g =
      if-Tells of_group info (not t.certificates_sent) _ _ (λ t g. (tt, g))
        (if-Tells of_group info (nat_beq (round t.protocol) 0) _ _ (λ t g. (tt, g))
          (if-Tells of_group info (ltb (round t.protocol) (last_round t.protocol)) _ _
            group_advance-Tells group_finalize-Tells))
        t g

  received-Tells : Tells of_group info (GroupTask.after_receive h)
  unfolding GroupTask.after_receive
  received-Tells t g =
      if-Tells of_group info
        (Communicator.round_received t.communicator
          && leb (round t.protocol) (last_round t.protocol))
        _ _ group_next-Tells (λ t g. (tt, g)) t g

  asserted-Tells :
      (b : Bool) (m : Exec GroupTask.GroupTask RoundUpdate)
      → Tells of_group info m
      → Tells of_group info (lift_assert b m)
  asserted-Tells true m hm t g = hm t g
  asserted-Tells false m hm t g = (tt, g)

  pub group_update-Tells :
      (id : Bytes) (messages : List ClientMessage)
      → Tells of_group info (GroupTask.update h id messages)
  unfolding GroupTask.update
  group_update-Tells id messages t g =
      if-Tells of_group info (not (Communicator.waiting_for t.communicator id)) _ _ (λ t g. (tt, g))
        (asserted-Tells t.certificates_sent _ (
          bind-Tells of_group info
            (zoom (λ t. t.communicator) (λ c t. record t { communicator = c })
              (receive_messages id messages))
            (λ a. GroupTask.after_receive h) (λ t g. g) (λ a. received-Tells)))
        t g
