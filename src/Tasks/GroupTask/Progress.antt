-- ===== src/Tasks/GroupTask/Progress.antt =====
-- Group tasks go through their rounds one by one.
use meesign_server.Base.{
  [], ◌&&◌, ℕ, ◌+◌, ◌≤◌, ◌<◌, ◌≡◌, refl, Bool, true, false, ◌⊎◌, inl, inr, Option, List, Bytes,
  arith, ltb, leb, nat_beq, Bool-cases,
}
use meesign_server.Base.Exec.{
  Outcome, ok, err, panic, io_error, persistence_error, general_protocol_error,
}
use meesign_server.Communicator.{
  waiting_for, Communicator, all_fit, receive_messages, round_received,
}
use meesign_server.Communicator.Final.{get_final_message-Returns}
use meesign_server.Communicator.Messages.{Crypto, ClientMessage}
use meesign_server.Communicator.Receive.{receive_messages_cases, buffered}
use meesign_server.Protocols.{round, last_round}
use meesign_server.Protocols.Rounds.{
  round-with_round, initialize_lem, advance_before_last, finalize_last,
}
use meesign_server.Tasks.GroupTask.{
  GroupTask, start_task, advance_task, finalize_task, establish, group_certificate,
  issue_certificate, next_step, after_receive, update,
}
use meesign_server.Tasks.Helper.{Helper}
use meesign_server.Tasks.Info.{RoundUpdate}
use meesign_server.Tasks.Progress.{Progress}

abbrev pub round_of : GroupTask → ℕ
round_of t = round t.protocol

-- What a call may do to the round of a group task: as for the other tasks, but the certificate of
-- a new group may fail in the last round, after which the protocol has ended.
abbrev pub Moves : Outcome RoundUpdate → Bool → ℕ → ℕ → ℕ → Type 0
Moves (ok u) fit last old new = Progress u last old new
Moves (err io_error) fit last old new = (old ≡ last) × (new ≡ last + 1)
Moves (err (general_protocol_error text)) fit last old new = new ≡ old
Moves (err (persistence_error e)) fit last old new = ⊥
Moves panic fit last old new = (fit ≡ false) ⊎ ((old ≡ last) × (new ≡ last + 1))

Moves-fit :
    (r : Outcome RoundUpdate) (fit : Bool) (last old new : ℕ)
    → Moves r true last old new
    → Moves r fit last old new
Moves-fit (ok u) fit last old new h = h
Moves-fit (err io_error) fit last old new h = h
Moves-fit (err (general_protocol_error text)) fit last old new h = h
Moves-fit (err (persistence_error e)) fit last old new h = h
Moves-fit panic fit last old new (inl e) = absurd (cc)
Moves-fit panic fit last old new (inr e) = inr e

-- A certificate is issued, or the helper fails, or the identifier is no public key.
group_certificate-cases :
    (h : Helper) (t : GroupTask) (id : Bytes)
    → ((c : Option Bytes) × (group_certificate h t id ≡ ok c))
      ⊎ (group_certificate h t id ≡ err io_error)
      ⊎ (group_certificate h t id ≡ panic)
unfolding group_certificate issue_certificate
group_certificate-cases h t id = ground arith

abbrev pub last_of : ⦃x : Crypto⦄ → GroupTask → ℕ
last_of t = last_round t.protocol

module _ ⦃x : Crypto⦄ (h : Helper) where
  establish-Moves :
      (t : GroupTask) (id : Bytes) (last old : ℕ)
      → old ≡ last
      → round_of t ≡ last + 1
      → Moves (establish h id t).0 true last old (round_of (establish h id t).1)
  unfolding establish
  establish-Moves t id last old e r = elim (group_certificate-cases h t id) [
    | inl (c, issued) ↦ rw issued (e, r, refl)
    | inr (inl failure) ↦ rw failure (e, r)
    | inr (inr broken) ↦ rw broken (inr (e, r))
  ]

  module _ (t : GroupTask) (short : last_of t < 65535) (some_round : 0 < last_of t) where
    start_task-Moves :
        (round_of t ≡ 0)
        → Moves (start_task h t).0 true (last_of t) (round_of t) (round_of (start_task h t).1)
    unfolding start_task
    start_task-Moves e =
        let (f, started) = initialize_lem [] t.protocol t.communicator in
        ground (arith, started, round-with_round 1 t.protocol)

    advance_task-Moves :
        round_of t < last_of t
        → Moves (advance_task h t).0 true (last_of t) (round_of t) (round_of (advance_task h t).1)
    unfolding advance_task
    advance_task-Moves e =
        rw (advance_before_last t.protocol t.communicator e short)
          (ground (arith, round-with_round (round_of t + 1) t.protocol))

    finalize_task-Moves :
        (round_of t ≡ last_of t)
        → Moves (finalize_task h t).0 true (last_of t) (round_of t) (round_of (finalize_task h t).1)
    unfolding finalize_task
    finalize_task-Moves e =
        rw (finalize_last t.protocol t.communicator e short)
          (elim (get_final_message-Returns t.communicator) [
            | inl absent ↦ rw absent (ground (arith, round-with_round (round_of t + 1) t.protocol))
            | inr (inl (m, found)) ↦ rw found (
                establish-Moves _ m (last_of t) (round_of t) e
                  (ground (arith, round-with_round (round_of t + 1) t.protocol)))
            | inr (inr broken) ↦
                rw broken (inr (e, ground (arith, e, round-with_round (round_of t + 1) t.protocol)))
          ])

    next_step-Moves :
        t.certificates_sent ≡ true
        → round_of t ≤ last_of t
        → Moves (next_step h t).0 true (last_of t) (round_of t) (round_of (next_step h t).1)
    unfolding next_step
    next_step-Moves sent e = elim (Bool-cases (nat_beq (round_of t) 0)) [
      | inl zero ↦ simp (sent, zero) (start_task-Moves (ground arith))
      | inr later ↦ elim (Bool-cases (ltb (round_of t) (last_of t))) [
        | inl before ↦ simp (sent, later, before) (advance_task-Moves (ground arith))
        | inr at_end ↦ simp (sent, later, at_end) (finalize_task-Moves (ground arith))
      ]
    ]

    after_receive-Moves :
        t.certificates_sent ≡ true
        → Moves (after_receive h t).0 true (last_of t) (round_of t) (round_of (after_receive h t).1)
    unfolding after_receive
    after_receive-Moves sent =
        elim (Bool-cases (round_received t.communicator && leb (round_of t) (last_of t))) [
          | inl full ↦ rw full (next_step-Moves sent (ground arith))
          | inr open_round ↦ rw open_round refl
        ]

  update_waiting :
      (t : GroupTask) (id : Bytes) (messages : List ClientMessage) (b : Bool) (c : Communicator)
      → t.certificates_sent ≡ true
      → waiting_for t.communicator id ≡ true
      → receive_messages id messages t.communicator ≡ (ok b, c)
      → update h id messages t ≡ after_receive h (record t { communicator = c })
  unfolding update
  update_waiting t id messages b c sent waits received = rw (waits, sent) (rw received refl)

  update_not_waiting :
      (t : GroupTask) (id : Bytes) (messages : List ClientMessage)
      → waiting_for t.communicator id ≡ false
      → update h id messages t
        ≡ (err (general_protocol_error "Wasn't waiting for a message from this ID."), t)
  unfolding update
  update_not_waiting t id messages idle = rw idle refl

  update_panics :
      (t : GroupTask) (id : Bytes) (messages : List ClientMessage)
      → t.certificates_sent ≡ true
      → waiting_for t.communicator id ≡ true
      → receive_messages id messages t.communicator ≡ (panic, t.communicator)
      → update h id messages t ≡ (panic, t)
  unfolding update
  update_panics t id messages sent waits received = rw (waits, sent) (rw received refl)

  -- A group task that has sent its certificates and whose protocol has between 1 and 65534 rounds
  -- goes through them in order: an update with messages leaves the round, or moves it from one to
  -- the next up to the last, or ends the task after the last, and reports just that; an error
  -- leaves the round, or comes after the last round where the certificate of the group cannot be
  -- issued, and a panic comes only from a message of the wrong shape or once the task has left
  -- the last round, so with messages of the right shape no assertion of the protocols on rounds
  -- fails.
  pub group_update-Moves :
      (t : GroupTask) (id : Bytes) (messages : List ClientMessage)
      → t.certificates_sent ≡ true
      → last_of t < 65535
      → 0 < last_of t
      → Moves
          (update h id messages t).0
          (all_fit t.communicator.threshold messages)
          (last_of t)
          (round_of t)
          (round_of (update h id messages t).1)
  group_update-Moves t id messages sent short some_round =
      elim (Bool-cases (waiting_for t.communicator id)) [
        | inr idle ↦ rw (update_not_waiting t id messages idle) refl
        | inl waits ↦ elim (receive_messages_cases t.communicator id messages) [
          | inl (why, received) ↦
              rw (update_waiting t id messages false t.communicator sent waits received)
                (Moves-fit _ _ _ _ _ (after_receive-Moves t short some_round sent))
          | inr (inl (unfit, received)) ↦
              rw (update_panics t id messages sent waits received) (inl unfit)
          | inr (inr (complete, received)) ↦
              rw
                (update_waiting t id messages true (buffered t.communicator id messages) sent waits
                  received)
                (Moves-fit _ _ _ _ _ (
                  after_receive-Moves
                    (record t { communicator = buffered t.communicator id messages }) short
                    some_round sent))
        ]
      ]
