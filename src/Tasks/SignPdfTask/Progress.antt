-- ===== src/Tasks/SignPdfTask/Progress.antt =====
-- Tasks that sign a document go through the rounds of their inner task.
use meesign_server.Base.{
  ℕ, ◌+◌, ◌≤◌, ◌<◌, ◌≡◌, refl, Bool, true, false, ◌&&◌, inl, inr, List, Bytes, arith, nat_eq, leb,
  ltb, nat_beq, if◌then◌else◌, Bool-cases,
}
use meesign_server.Base.Exec.{
  Exec, general_protocol_error, Outcome, ok, err, panic, continue, unwrap, pure,
}
use meesign_server.Base.Map.{get, remove}
use meesign_server.Communicator.{
  Communicator, all_fit, receive_messages, waiting_for, round_received,
}
use meesign_server.Communicator.Messages.{Crypto, ClientMessage}
use meesign_server.Communicator.Receive.{receive_messages_cases, buffered}
use meesign_server.Tasks.Helper.{Helper}
use meesign_server.Tasks.Info.{
  RoundUpdate, listen, group_certificates_sent, next_round, finished, failed, FinishedTask,
}
use meesign_server.Tasks.Progress.{Moves}
use meesign_server.Tasks.SignPdfTask.{
  State, include_result, include_signature, signature_of, attach, finalize_task, next_step, update,
}
use meesign_server.Tasks.SignPdfTask.Start.{
  PdfMoves, PdfMoves-fit, FromStart, pdf_round, pdf_last, start_task-PdfMoves,
  advance_task-PdfMoves,
}
use meesign_server.Tasks.SignTask.{SignTask}
use meesign_server.Tasks.SignTask
use meesign_server.Tasks.SignTask.Progress.{finalize_task-Progress}

module _ ⦃x : Crypto⦄ (h : Helper) where
  -- The protocol has gone past its last round.
  abbrev Past : ℕ → ℕ → ℕ → State → Type 0
  Past k last old s = (old ≡ last) × (pdf_round s ≡ last + 1) × (k ≡ pdf_round s)

  Past-PdfMoves :
      {A : Type 0} (k last old : ℕ) (f : A → Exec State RoundUpdate) (r : Outcome A) (s : State)
      → Past k last old s
      → ((a : A) → PdfMoves (f a s).0 true last old (pdf_round (f a s).1))
      → PdfMoves (continue r f s).0 true last old (pdf_round (continue r f s).1)
  Past-PdfMoves k last old f (ok a) s e hf = hf a
  Past-PdfMoves k last old f (err x) s e hf = inr (e.0, e.1)
  Past-PdfMoves k last old f panic s e hf = inr (inl (e.0, e.1))

  include_result-PdfMoves :
      (k last old : ℕ) (done : FinishedTask) (s : State)
      → Past k last old s
      → PdfMoves
          (include_result h k done s).0
          true
          last
          old
          (pdf_round (include_result h k done s).1)
  unfolding include_result
  include_result-PdfMoves k last old done s e =
      let left : State = (remove s.1.sign_task.task_info.id s.0, s.1) in
      Past-PdfMoves k last old _ (unwrap (get s.1.sign_task.task_info.id s.0)) s e λ child.
        Past-PdfMoves k last old _ (signature_of done.result) left e λ signature.
          Past-PdfMoves k last old _ (include_signature h child signature) left e λ document. e

  attached :
      (r : Outcome RoundUpdate) (last old : ℕ) (s : State)
      → Moves r true last old (pdf_round s)
      → PdfMoves (continue r (attach h) s).0 true last old (pdf_round (continue r (attach h) s).1)
  unfolding attach
  attached (ok listen) last old s m = m
  attached (ok group_certificates_sent) last old s m = absurd m
  attached (ok (next_round k)) last old s m = m
  attached (ok (finished k done)) last old s m = include_result-PdfMoves k last old done s m
  attached (ok (failed d)) last old s m = inr m
  attached (err e) last old s m = inl m
  attached panic last old s (inl e) = absurd (cc)
  attached panic last old s (inr e) = inr (inl e)

  module _ (s : State) (short : pdf_last s < 65535) (some_round : 0 < pdf_last s) where
    finalize_task-PdfMoves : (pdf_round s ≡ pdf_last s) → FromStart s (finalize_task h s)
    unfolding finalize_task
    finalize_task-PdfMoves at_end =
        let last = SignTask.finalize_task s.1.sign_task in
        attached last.0 (pdf_last s) (pdf_round s) (s.0, record { sign_task = last.1 })
          (finalize_task-Progress s.1.sign_task short some_round at_end)

    next_step-PdfMoves : pdf_round s ≤ pdf_last s → FromStart s (next_step h s)
    unfolding next_step
    next_step-PdfMoves open_round = elim (Bool-cases (nat_beq (pdf_round s) 0)) [
      | inl zero ↦ rw zero (start_task-PdfMoves h s short some_round (ground arith))
      | inr later ↦ elim (Bool-cases (ltb (pdf_round s) (pdf_last s))) [
        | inl before ↦
            rw (later, before) (advance_task-PdfMoves h s short some_round (ground arith))
        | inr at_end ↦ rw (later, at_end) (finalize_task-PdfMoves (ground arith))
      ]
    ]

  -- What `update` does once the messages are buffered.
  after_receive : State → Outcome RoundUpdate × State
  after_receive s =
      (if round_received s.1.sign_task.communicator && leb (pdf_round s) (pdf_last s)
          then next_step h
          else pure listen)
        s

  after_receive-PdfMoves :
      (s : State) → pdf_last s < 65535 → 0 < pdf_last s → FromStart s (after_receive s)
  unfolding after_receive
  after_receive-PdfMoves s short some_round =
      elim (Bool-cases
        (round_received s.1.sign_task.communicator && leb (pdf_round s) (pdf_last s))) [
          | inl full ↦ rw full (next_step-PdfMoves s short some_round (ground arith))
          | inr open_round ↦ rw open_round refl
        ]

  -- The state with another communicator.
  abbrev with_communicator : Communicator → State → State
  with_communicator c s = (s.0, record { sign_task = record s.1.sign_task { communicator = c } })

  update_waiting :
      (s : State) (id : Bytes) (messages : List ClientMessage) (b : Bool) (c : Communicator)
      → waiting_for s.1.sign_task.communicator id ≡ true
      → receive_messages id messages s.1.sign_task.communicator ≡ (ok b, c)
      → update h id messages s ≡ after_receive (with_communicator c s)
  unfolding update SignTask.update_internal after_receive
  update_waiting s id messages b c waits received = rw waits (rw received refl)

  update_not_waiting :
      (s : State) (id : Bytes) (messages : List ClientMessage)
      → waiting_for s.1.sign_task.communicator id ≡ false
      → update h id messages s
        ≡ (err (general_protocol_error "Wasn't waiting for a message from this ID."), s)
  unfolding update SignTask.update_internal
  update_not_waiting s id messages idle = rw idle refl

  update_panics :
      (s : State) (id : Bytes) (messages : List ClientMessage)
      → waiting_for s.1.sign_task.communicator id ≡ true
      → receive_messages id messages s.1.sign_task.communicator
        ≡ (panic, s.1.sign_task.communicator)
      → update h id messages s ≡ (panic, s)
  unfolding update SignTask.update_internal
  update_panics s id messages waits received = rw waits (rw received refl)

  -- A task that signs a document and whose protocol has between 1 and 65534 rounds goes through
  -- them in order: an update with messages leaves the round, or moves it from one to the next up
  -- to the last, or ends the task after the last, or fails it before the first, and reports just
  -- that; an error leaves the round or comes after the last one, and a panic comes only from a
  -- message of the wrong shape, while the first round is not reached, or once the task has left
  -- the last, so with messages of the right shape no assertion of the protocols on rounds fails
  -- once the first round is reached.
  pub pdf_update-PdfMoves :
      (s : State) (id : Bytes) (messages : List ClientMessage)
      → pdf_last s < 65535
      → 0 < pdf_last s
      → PdfMoves
          (update h id messages s).0
          (all_fit s.1.sign_task.communicator.threshold messages)
          (pdf_last s)
          (pdf_round s)
          (pdf_round (update h id messages s).1)
  pdf_update-PdfMoves s id messages short some_round =
      let c = s.1.sign_task.communicator in
      elim (Bool-cases (waiting_for c id)) [
        | inr idle ↦ rw (update_not_waiting s id messages idle) (inl refl)
        | inl waits ↦ elim (receive_messages_cases c id messages) [
          | inl (why, received) ↦
              rw (update_waiting s id messages false c waits received)
                (PdfMoves-fit _ _ _ _ _ (after_receive-PdfMoves s short some_round))
          | inr (inl (unfit, received)) ↦
              rw (update_panics s id messages waits received) (inl unfit)
          | inr (inr (complete, received)) ↦
              rw (update_waiting s id messages true (buffered c id messages) waits received) (
                PdfMoves-fit _ _ _ _ _ (
                  after_receive-PdfMoves (with_communicator (buffered c id messages) s) short
                    some_round))
        ]
      ]
