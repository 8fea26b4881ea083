-- ===== src/Tasks/SignTask/Progress.antt =====
-- Signing tasks go through their rounds one by one.
use meesign_server.Base.{
  ◌≢◌, length, ◌&&◌, ℕ, ◌+◌, ◌≤◌, ◌<◌, ◌≡◌, refl, Bool, true, false, inl, inr, List, Bytes, arith,
  ltb, leb, nat_beq, if◌then◌else◌, Bool-cases,
}
use meesign_server.Base.Exec.{pure, Outcome, ok, err, panic, general_protocol_error}
use meesign_server.Communicator.{
  identifier_to_indices, waiting_for, Communicator, all_fit, receive_messages, round_received,
}
use meesign_server.Communicator.Final.{get_final_message-Returns}
use meesign_server.Communicator.Indices.{IsValid}
use meesign_server.Communicator.Messages.{Crypto, ClientMessage}
use meesign_server.Communicator.Receive.{receive_messages_cases, buffered, refused}
use meesign_server.Communicator.Rounds.{incomplete}
use meesign_server.Protocols.{round, last_round}
use meesign_server.Protocols.Rounds.{
  round-with_round, initialize_lem, advance_before_last, finalize_last,
}
use meesign_server.Tasks.Info.{RoundUpdate, listen}
use meesign_server.Tasks.Progress.{Moves, Moves-fit}
use meesign_server.Tasks.SignTask.{
  SignTask, start_task, advance_task, finalize_task, complete, next_step, update_internal, update,
  to_sign,
}

abbrev pub round_of : SignTask → ℕ
round_of t = round t.protocol

module _ ⦃x : Crypto⦄ where
  abbrev pub last_of : SignTask → ℕ
  last_of t = last_round t.protocol

  module _ (t : SignTask) (short : last_of t < 65535) (some_round : 0 < last_of t) where
    pub start_task-Progress :
        (round_of t ≡ 0)
        → Moves (start_task t).0 true (last_of t) (round_of t) (round_of (start_task t).1)
    unfolding start_task
    start_task-Progress h =
        let (f, started) = initialize_lem (to_sign t) t.protocol t.communicator in
        ground (arith, started, round-with_round 1 t.protocol)

    pub advance_task-Progress :
        round_of t < last_of t
        → Moves (advance_task t).0 true (last_of t) (round_of t) (round_of (advance_task t).1)
    unfolding advance_task
    advance_task-Progress h =
        rw (advance_before_last t.protocol t.communicator h short)
          (ground (arith, round-with_round (round_of t + 1) t.protocol))

    pub finalize_task-Progress :
        (round_of t ≡ last_of t)
        → Moves (finalize_task t).0 true (last_of t) (round_of t) (round_of (finalize_task t).1)
    unfolding finalize_task complete
    finalize_task-Progress h =
        rw (finalize_last t.protocol t.communicator h short)
          (elim (get_final_message-Returns t.communicator) [
            | inl e ↦ rw e (ground (arith, round-with_round (round_of t + 1) t.protocol))
            | inr (inl (m, e)) ↦ rw e (ground (arith, round-with_round (round_of t + 1) t.protocol))
            | inr (inr e) ↦
                rw e (inr (h, ground (arith, h, round-with_round (round_of t + 1) t.protocol)))
          ])

    next_step-Progress :
        round_of t ≤ last_of t
        → Moves (next_step t).0 true (last_of t) (round_of t) (round_of (next_step t).1)
    unfolding next_step
    next_step-Progress h = elim (Bool-cases (nat_beq (round_of t) 0)) [
      | inl zero ↦ rw zero (start_task-Progress (ground arith))
      | inr later ↦ elim (Bool-cases (ltb (round_of t) (last_of t))) [
        | inl before ↦ rw (later, before) (advance_task-Progress (ground arith))
        | inr at_end ↦ rw (later, at_end) (finalize_task-Progress (ground arith))
      ]
    ]

  -- What `update` does once the messages are buffered.
  after_receive : SignTask → Outcome RoundUpdate × SignTask
  after_receive t =
      (if round_received t.communicator && leb (round_of t) (last_of t)
          then next_step
          else pure listen)
        t

  after_receive-Progress :
      (t : SignTask)
      → last_of t < 65535
      → 0 < last_of t
      → Moves (after_receive t).0 true (last_of t) (round_of t) (round_of (after_receive t).1)
  unfolding after_receive
  after_receive-Progress t short some_round =
      elim (Bool-cases (round_received t.communicator && leb (round_of t) (last_of t))) [
        | inl full ↦ rw full (next_step-Progress t short some_round (ground arith))
        | inr open_round ↦ rw open_round refl
      ]

  update_waiting :
      (t : SignTask) (id : Bytes) (messages : List ClientMessage) (b : Bool) (c : Communicator)
      → waiting_for t.communicator id ≡ true
      → receive_messages id messages t.communicator ≡ (ok b, c)
      → update id messages t ≡ after_receive (record t { communicator = c })
  unfolding update update_internal after_receive
  update_waiting t id messages b c waits received = rw waits (rw received refl)

  update_not_waiting :
      (t : SignTask) (id : Bytes) (messages : List ClientMessage)
      → waiting_for t.communicator id ≡ false
      → update id messages t
        ≡ (err (general_protocol_error "Wasn't waiting for a message from this ID."), t)
  unfolding update update_internal
  update_not_waiting t id messages idle = rw idle refl

  update_panics :
      (t : SignTask) (id : Bytes) (messages : List ClientMessage)
      → waiting_for t.communicator id ≡ true
      → receive_messages id messages t.communicator ≡ (panic, t.communicator)
      → update id messages t ≡ (panic, t)
  unfolding update update_internal
  update_panics t id messages waits received = rw waits (rw received refl)

  -- A signing task whose protocol has between 1 and 65534 rounds goes through them in order: an
  -- update with messages leaves the round, or moves it from one to the next up to the last, or
  -- ends the task after the last, and reports just that; an error leaves the round, and a panic
  -- comes only from a message of the wrong shape or once the task has left the last round, so
  -- with messages of the right shape no assertion of the protocols on rounds fails.
  pub sign_update-Moves :
      (t : SignTask) (id : Bytes) (messages : List ClientMessage)
      → last_of t < 65535
      → 0 < last_of t
      → Moves
          (update id messages t).0
          (all_fit t.communicator.threshold messages)
          (last_of t)
          (round_of t)
          (round_of (update id messages t).1)
  sign_update-Moves t id messages short some_round =
      elim (Bool-cases (waiting_for t.communicator id)) [
        | inr idle ↦ rw (update_not_waiting t id messages idle) refl
        | inl waits ↦ elim (receive_messages_cases t.communicator id messages) [
          | inl (why, received) ↦
              rw (update_waiting t id messages false t.communicator waits received)
                (Moves-fit _ _ _ _ _ (after_receive-Progress t short some_round))
          | inr (inl (unfit, received)) ↦
              rw (update_panics t id messages waits received) (inl unfit)
          | inr (inr (complete, received)) ↦
              rw
                (update_waiting t id messages true (buffered t.communicator id messages) waits
                  received)
                (Moves-fit _ _ _ _ _ (
                  after_receive-Progress
                    (record t { communicator = buffered t.communicator id messages }) short
                    some_round))
        ]
      ]

  -- Under the invariant of the communicator, a device that is awaited by a signing task and sends
  -- a wrong number of messages is answered as if they had been received, and nothing changes: the
  -- messages are dropped.
  pub sign_miscounted :
      (t : SignTask) (id : Bytes) (messages : List ClientMessage)
      → IsValid t.communicator
      → waiting_for t.communicator id ≡ true
      → length (identifier_to_indices t.communicator id) ≢ length messages
      → update id messages t ≡ (ok listen, t)
  unfolding after_receive
  sign_miscounted t id messages v waits differ =
      rw
        (update_waiting t id messages false t.communicator waits
          (refused t.communicator id messages differ))
        (rw (incomplete t.communicator v id waits) refl)
