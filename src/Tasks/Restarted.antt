-- ===== src/Tasks/Restarted.antt =====
-- A restart of a running task keeps its identifier, whether it succeeds or not.
use meesign_server.Base.{
  ℕ, ◌≡◌, refl, Option, none, some, Bytes, nat_eq, Bool-cases, Option-cases, inl, inr,
}
use meesign_server.Base.Exec.{Outcome, ok, err, panic, continue, modify, ◌>>◌}
use meesign_server.Base.Map.{get, remove}
use meesign_server.Communicator.Messages.{Crypto}
use meesign_server.Tasks.DecryptTask
use meesign_server.Tasks.GroupTask
use meesign_server.Tasks.Helper.{Helper}
use meesign_server.Tasks.Info.{RoundUpdate, failed}
use meesign_server.Tasks.Running.{
  Running, task_info, restart, group_task, sign_task, sign_pdf_task, decrypt_task,
}
use meesign_server.Tasks.SignPdfTask.{
  PdfHelpers, SignPdfTask, start_with, start_child, start_task, kill_helper, kill_child,
  request_hash,
}
use meesign_server.Tasks.SignPdfTask
use meesign_server.Tasks.SignTask

-- A task that fails is reported under the identifier.
abbrev pub Names : ℕ → Outcome RoundUpdate → Type 0
Names id (ok (failed f)) = f.task_info.id ≡ id
Names id _ = Unit

abbrev Tells : ℕ → Outcome RoundUpdate × (PdfHelpers × SignPdfTask) → Type 0
Tells id r = Names id r.0 × (r.1.1.sign_task.task_info.id ≡ id)

module _ ⦃x : Crypto⦄ (h : Helper) where
  start_with-Tells :
      (child : ℕ) (hash : Bytes) (s : PdfHelpers × SignPdfTask)
      → Tells s.1.sign_task.task_info.id (start_with h child hash s)
  unfolding start_with
  start_with-Tells child hash s = elim (Bool-cases (SignPdfTask.is_empty hash)) [
    | inl empty ↦ rw empty (refl, refl)
    | inr full ↦ rw full (unfold SignTask.set_preprocessed SignTask.start_task in (tt, refl))
  ]

  hashed-Tells :
      (child : ℕ) (s : PdfHelpers × SignPdfTask) (r : Outcome Bytes)
      → Tells s.1.sign_task.task_info.id (continue r (start_with h child) s)
  hashed-Tells child s (ok hash) = start_with-Tells child hash s
  hashed-Tells child s (err e) = (tt, refl)
  hashed-Tells child s panic = (tt, refl)

  start_child-Tells :
      (child : ℕ) (s : PdfHelpers × SignPdfTask)
      → Tells s.1.sign_task.task_info.id (start_child h child s)
  unfolding start_child
  start_child-Tells child s = elim (Option-cases s.1.sign_task.group.certificate) [
    | inl absent ↦ rw absent (tt, refl)
    | inr (cert, there) ↦ simp there (hashed-Tells child s (request_hash h child cert))
  ]

  start_task-Tells :
      (s : PdfHelpers × SignPdfTask) → Tells s.1.sign_task.task_info.id (start_task h s)
  unfolding start_task
  start_task-Tells s = elim (Bool-cases h.file_created) [
    | inr refused ↦ rw refused (refl, refl)
    | inl created ↦ elim (Bool-cases (h.file_written s.1.sign_task.content)) [
      | inr lost ↦ rw (created, lost) (refl, refl)
      | inl written ↦ elim (Option-cases (h.spawn s.1.sign_task.content)) [
        | inl absent ↦ rw (created, written, absent) (refl, refl)
        | inr (child, there) ↦ rw (created, written, there) (start_child-Tells child s)
      ]
    ]
  ]

  -- The child of an earlier attempt is no longer listed, and the task stays as it is.
  kill_child_lem :
      (found : Option ℕ) (s : PdfHelpers × SignPdfTask)
      → (r : Outcome (Unit {0})) × (left : PdfHelpers) × (kill_child h found s ≡ (r, (left, s.1)))
  unfolding kill_child
  kill_child_lem none s = (ok tt, s.0, refl)
  kill_child_lem (some child) s = elim (Bool-cases (h.killed child)) [
    | inl done ↦ (ok tt, remove s.1.sign_task.task_info.id s.0, rw done refl)
    | inr broken ↦ (panic, remove s.1.sign_task.task_info.id s.0, rw broken refl)
  ]

  restarted-Tells :
      (r : Outcome (Unit {0})) (s : PdfHelpers × SignPdfTask)
      → Tells s.1.sign_task.task_info.id (
          continue r
            (λ a. SignPdfTask.inner (modify SignTask.increment_attempt_count) >> start_task h)
            s)
  unfolding SignTask.increment_attempt_count
  restarted-Tells (ok a) s =
      start_task-Tells (s.0, record { sign_task = SignTask.increment_attempt_count s.1.sign_task })
  restarted-Tells (err e) s = (tt, refl)
  restarted-Tells panic s = (tt, refl)

  pdf_restart-Tells :
      (s : PdfHelpers × SignPdfTask) → Tells s.1.sign_task.task_info.id (SignPdfTask.restart h s)
  unfolding SignPdfTask.restart kill_helper
  pdf_restart-Tells s =
      let (r, left, e) = kill_child_lem (get s.1.sign_task.task_info.id s.0) s in
      rw e (restarted-Tells r (left, s.1))

  pub restart-Names :
      (w : Running)
      → Names (task_info w.1).id (restart h w).0
        × ((task_info (restart h w).1.1).id ≡ (task_info w.1).id)
  unfolding restart task_info GroupTask.restart SignTask.restart DecryptTask.restart
  restart-Names (helpers, group_task t) =
      unfold GroupTask.start_task GroupTask.increment_attempt_count in (tt, refl)
  restart-Names (helpers, sign_task t) =
      unfold SignTask.start_task SignTask.increment_attempt_count in (tt, refl)
  restart-Names (helpers, sign_pdf_task t) = pdf_restart-Tells (helpers, t)
  restart-Names (helpers, decrypt_task t) =
      unfold DecryptTask.start_task DecryptTask.increment_attempt_count in (tt, refl)
