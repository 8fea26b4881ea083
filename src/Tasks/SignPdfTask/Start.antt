-- ===== src/Tasks/SignPdfTask/Start.antt =====
-- How the tasks of sign_pdf.rs start their inner task.
use meesign_server.Base.{
  ℕ, ◌+◌, ◌<◌, ◌≡◌, refl, Bool, true, false, ◌⊎◌, inl, inr, Bytes, nat_eq, Bool-cases, Option-cases,
}
use meesign_server.Base.Exec.{Outcome, ok, err, panic, continue}
use meesign_server.Communicator.Messages.{Crypto}
use meesign_server.Tasks.Helper.{Helper}
use meesign_server.Tasks.Info.{
  RoundUpdate, listen, group_certificates_sent, next_round, finished, failed,
}
use meesign_server.Tasks.Progress.{Progress, Moves}
use meesign_server.Tasks.SignPdfTask.{
  State, start_with, start_child, start_task, request_hash, is_empty, advance_task,
}
use meesign_server.Tasks.SignTask.{SignTask}
use meesign_server.Tasks.SignTask
use meesign_server.Tasks.SignTask.Progress.{
  round_of, last_of, start_task-Progress, advance_task-Progress,
}

-- A task may fail before its first round, and an error or a panic may come once the last one has
-- been left.
abbrev pub PdfMoves : Outcome RoundUpdate → Bool → ℕ → ℕ → ℕ → Type 0
PdfMoves (ok (failed d)) fit last old new =
    ((old ≡ 0) × (new ≡ 0)) ⊎ ((old ≡ last) × (new ≡ last + 1))
PdfMoves (ok u) fit last old new = Progress u last old new
PdfMoves (err e) fit last old new = (new ≡ old) ⊎ ((old ≡ last) × (new ≡ last + 1))
PdfMoves panic fit last old new =
    (fit ≡ false) ⊎ ((old ≡ last) × (new ≡ last + 1)) ⊎ ((old ≡ 0) × (new ≡ 0))

pub from_inner :
    (r : Outcome RoundUpdate) (last old new : ℕ)
    → Moves r true last old new
    → PdfMoves r true last old new
from_inner (ok listen) last old new h = h
from_inner (ok group_certificates_sent) last old new h = h
from_inner (ok (next_round k)) last old new h = h
from_inner (ok (finished k d)) last old new h = h
from_inner (ok (failed d)) last old new h = inr h
from_inner (err e) last old new h = inl h
from_inner panic last old new (inl e) = absurd (cc)
from_inner panic last old new (inr e) = inr (inl e)

pub PdfMoves-fit :
    (r : Outcome RoundUpdate) (fit : Bool) (last old new : ℕ)
    → PdfMoves r true last old new
    → PdfMoves r fit last old new
PdfMoves-fit (ok listen) fit last old new h = h
PdfMoves-fit (ok group_certificates_sent) fit last old new h = h
PdfMoves-fit (ok (next_round k)) fit last old new h = h
PdfMoves-fit (ok (finished k d)) fit last old new h = h
PdfMoves-fit (ok (failed d)) fit last old new h = h
PdfMoves-fit (err e) fit last old new h = h
PdfMoves-fit panic fit last old new (inl e) = absurd (cc)
PdfMoves-fit panic fit last old new (inr e) = inr e

abbrev pub pdf_round : State → ℕ
pdf_round s = round_of s.1.sign_task

module _ ⦃x : Crypto⦄ where
  abbrev pub pdf_last : State → ℕ
  pdf_last s = last_of s.1.sign_task

  -- What a call may do from the state on.
  abbrev pub FromStart : State → Outcome RoundUpdate × State → Type 0
  FromStart s r = PdfMoves r.0 true (pdf_last s) (pdf_round s) (pdf_round r.1)

module _ ⦃x : Crypto⦄ (h : Helper) where
  module _ (s : State) (short : pdf_last s < 65535) (some_round : 0 < pdf_last s) where
    module _ (zero_round : pdf_round s ≡ 0) where
      start_with-PdfMoves : (child : ℕ) (hash : Bytes) → FromStart s (start_with h child hash s)
      unfolding start_with SignTask.set_preprocessed
      start_with-PdfMoves child hash = elim (Bool-cases (is_empty hash)) [
        | inl empty ↦ rw empty (inl (zero_round, zero_round))
        | inr full ↦
            let t' = SignTask.set_preprocessed hash s.1.sign_task in
            rw full (
              from_inner (SignTask.start_task t').0 (last_of t') (round_of t')
                (round_of (SignTask.start_task t').1)
                (start_task-Progress t' short some_round zero_round))
      ]

      hashed-PdfMoves :
          (child : ℕ) (r : Outcome Bytes) → FromStart s (continue r (start_with h child) s)
      hashed-PdfMoves child (ok hash) = start_with-PdfMoves child hash
      hashed-PdfMoves child (err e) = inl refl
      hashed-PdfMoves child panic = inr (inr (zero_round, zero_round))

      start_child-PdfMoves : (child : ℕ) → FromStart s (start_child h child s)
      unfolding start_child
      start_child-PdfMoves child = elim (Option-cases s.1.sign_task.group.certificate) [
        | inl absent ↦ simp absent (inr (inr (zero_round, zero_round)))
        | inr (cert, there) ↦ simp there (hashed-PdfMoves child (request_hash h child cert))
      ]

      pub start_task-PdfMoves : FromStart s (start_task h s)
      unfolding start_task
      start_task-PdfMoves = elim (Bool-cases h.file_created) [
        | inr refused ↦ rw refused (inl (zero_round, zero_round))
        | inl created ↦ elim (Bool-cases (h.file_written s.1.sign_task.content)) [
          | inr lost ↦ rw (created, lost) (inl (zero_round, zero_round))
          | inl written ↦ elim (Option-cases (h.spawn s.1.sign_task.content)) [
            | inl absent ↦ rw (created, written, absent) (inl (zero_round, zero_round))
            | inr (child, there) ↦ rw (created, written, there) (start_child-PdfMoves child)
          ]
        ]
      ]

    pub advance_task-PdfMoves : pdf_round s < pdf_last s → FromStart s (advance_task h s)
    unfolding advance_task
    advance_task-PdfMoves before =
        from_inner (SignTask.advance_task s.1.sign_task).0 (pdf_last s) (pdf_round s)
          (round_of (SignTask.advance_task s.1.sign_task).1)
          (advance_task-Progress s.1.sign_task short some_round before)
