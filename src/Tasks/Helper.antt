-- ===== src/Tasks/Helper.antt =====
-- The Java program MeeSignHelper.jar, the temporary files and the child processes that
-- tasks/group.rs and tasks/sign_pdf.rs use: a parameter of the model.
use meesign_server.Base.{ℕ, String, Bool, Option, Bytes}
use meesign_server.Base.Exec.{Outcome}

-- A child process is named by a number. `cert` is what the helper prints for a certificate, or
-- `none` where it cannot be started or read. `file_created`, `file_written` and `spawn` are the
-- steps of starting the helper on a document. `hash_line` is the hash that a child prints for a
-- certificate, `none` where it prints less than a line, and `document` the signed document that it
-- prints for a signature; a broken pipe and a text that is no hexadecimal are panics.
pub record Helper : Type 0 where
  pub cert : String → Bytes → Option Bytes
  pub file_created : Bool
  pub file_written : Bytes → Bool
  pub spawn : Bytes → Option ℕ
  pub hash_line : ℕ → Bytes → Outcome (Option Bytes)
  pub document : ℕ → Bytes → Outcome Bytes
  pub killed : ℕ → Bool
