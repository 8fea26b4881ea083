-- ===== src/Tasks/Updated/Documents.antt =====
-- `update` of tasks/sign_pdf.rs keeps the information of its task.
use meesign_server.Base.{
  ◌≡◌, Bytes, List, nat_beq, ltb, ℕ, Bool-cases, Option-cases, inl, inr, if◌then◌else◌, nat_eq,
}
use meesign_server.Base.Exec.{Exec, Outcome, ok, err, panic, continue, unwrap, pure}
use meesign_server.Base.Map.{get, remove}
use meesign_server.Communicator.Messages.{Crypto, ClientMessage}
use meesign_server.Protocols.{round, last_round}
use meesign_server.Tasks.Helper.{Helper}
use meesign_server.Tasks.Info.{
  TaskInfo, RoundUpdate, FinishedTask, finished, failed, listen, group_certificates_sent,
  next_round, signed_pdf,
}
use meesign_server.Tasks.SignPdfTask.{PdfHelpers, SignPdfTask}
use meesign_server.Tasks.SignPdfTask
use meesign_server.Tasks.SignTask
use meesign_server.Tasks.Updated.{Told, Tells, continue-Tells, bind-Tells, if-Tells, Reports}
use meesign_server.Tasks.Updated.Signing.{
  sign_advance-Tells, sign_finalize-Tells, sign_internal-Keeps,
}

module _ ⦃x : Crypto⦄ (h : Helper) (info : TaskInfo) where
  abbrev pub of_pdf : PdfHelpers × SignPdfTask → TaskInfo
  of_pdf s = s.1.sign_task.task_info

  start_with-Tells :
      (child : ℕ) (hash : Bytes) → Tells of_pdf info (SignPdfTask.start_with h child hash)
  unfolding SignPdfTask.start_with
  start_with-Tells child hash =
      if-Tells of_pdf info (SignPdfTask.is_empty hash) _ _ (λ s g. (g, g))
        (λ s g. unfold SignTask.set_preprocessed SignTask.start_task in (tt, g))

  start_child-Tells : (child : ℕ) → Tells of_pdf info (SignPdfTask.start_child h child)
  unfolding SignPdfTask.start_child
  start_child-Tells child s g =
      continue-Tells of_pdf info
        (λ cert s.
          continue (SignPdfTask.request_hash h child cert) (SignPdfTask.start_with h child) s)
        (λ cert.
          continue-Tells of_pdf info (SignPdfTask.start_with h child) (start_with-Tells child)
            (SignPdfTask.request_hash h child cert))
        (unwrap s.1.sign_task.group.certificate) s g

  start_task-Tells : Tells of_pdf info (SignPdfTask.start_task h)
  unfolding SignPdfTask.start_task
  start_task-Tells s g = elim (Bool-cases h.file_created) [
    | inr refused ↦ rw refused (g, g)
    | inl created ↦ elim (Bool-cases (h.file_written s.1.sign_task.content)) [
      | inr lost ↦ rw (created, lost) (g, g)
      | inl written ↦ elim (Option-cases (h.spawn s.1.sign_task.content)) [
        | inl absent ↦ rw (created, written, absent) (g, g)
        | inr (child, there) ↦ rw (created, written, there) (start_child-Tells child s g)
      ]
    ]
  ]

  abbrev published : ℕ → FinishedTask → Bytes → Exec (PdfHelpers × SignPdfTask) RoundUpdate
  published n done document = pure (finished n (record done { result = signed_pdf document }))

  abbrev with_signature : ℕ → FinishedTask → ℕ → Bytes → Exec (PdfHelpers × SignPdfTask) RoundUpdate
  with_signature n done child signature s =
      continue (SignPdfTask.include_signature h child signature) (published n done) s

  abbrev with_child : ℕ → FinishedTask → ℕ → Exec (PdfHelpers × SignPdfTask) RoundUpdate
  with_child n done child s =
      continue (SignPdfTask.signature_of done.result) (with_signature n done child)
        (remove s.1.sign_task.task_info.id s.0, s.1)

  include-Tells :
      (n : ℕ) (done : FinishedTask)
      → done.task_info ≡ info
      → Tells of_pdf info (SignPdfTask.include_result h n done)
  unfolding SignPdfTask.include_result
  include-Tells n done own s g =
      continue-Tells of_pdf info (with_child n done)
        (λ child s g.
          continue-Tells of_pdf info (with_signature n done child)
            (λ signature.
              continue-Tells of_pdf info (published n done) (λ document s g. (own, g))
                (SignPdfTask.include_signature h child signature))
            (SignPdfTask.signature_of done.result) (remove s.1.sign_task.task_info.id s.0, s.1) g)
        (unwrap (get s.1.sign_task.task_info.id s.0)) s g

  attach-Tells :
      (u : RoundUpdate) → Reports info (ok u) → Tells of_pdf info (SignPdfTask.attach h u)
  unfolding SignPdfTask.attach
  attach-Tells (finished n done) own s g = include-Tells n done own s g
  attach-Tells (failed f) own s g = (own, g)
  attach-Tells listen own s g = (tt, g)
  attach-Tells group_certificates_sent own s g = (tt, g)
  attach-Tells (next_round n) own s g = (tt, g)

  attached :
      (r : Outcome RoundUpdate) (s : PdfHelpers × SignPdfTask)
      → Told of_pdf info (r, s)
      → Told of_pdf info (continue r (SignPdfTask.attach h) s)
  attached (ok u) s told = attach-Tells u told.0 s told.1
  attached (err e) s told = (tt, told.1)
  attached panic s told = (tt, told.1)

  next-Tells : Tells of_pdf info (SignPdfTask.next_step h)
  unfolding SignPdfTask.next_step SignPdfTask.advance_task SignPdfTask.finalize_task
  next-Tells s g =
      if-Tells of_pdf info (nat_beq (round s.1.sign_task.protocol) 0) _ _ start_task-Tells
        (if-Tells of_pdf info
          (ltb (round s.1.sign_task.protocol) (last_round s.1.sign_task.protocol)) _ _
          (λ s g. sign_advance-Tells info s.1.sign_task g)
          (λ s g.
            attached (SignTask.finalize_task s.1.sign_task).0
              (s.0, record { sign_task = (SignTask.finalize_task s.1.sign_task).1 })
              (sign_finalize-Tells info s.1.sign_task g)))
        s g

  pub pdf_update-Tells :
      (id : Bytes) (messages : List ClientMessage)
      → Tells of_pdf info (SignPdfTask.update h id messages)
  unfolding SignPdfTask.update
  pdf_update-Tells id messages =
      bind-Tells of_pdf info (SignPdfTask.inner (SignTask.update_internal id messages))
        (λ full. if full then SignPdfTask.next_step h else pure listen)
        (λ s g. sign_internal-Keeps info id messages s.1.sign_task g)
        (λ full. if-Tells of_pdf info full _ _ next-Tells (λ s g. (tt, g)))
