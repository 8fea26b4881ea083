-- ===== src/Tasks/SignPdfTask.antt =====
-- tasks/sign_pdf.rs: a task that signs a document with the help of a Java process.
pub mod Start
pub mod Progress
use Prim.Native.String.{len}
use meesign_server.Base.{
  ℕ, String, Bool, not, ◌||◌, Option, none, some, List, [], Bytes, ltb, nat_beq, length, any,
  if◌then◌else◌, nat_eq,
}
use meesign_server.Base.Exec.{
  Exec, Outcome, ok, err, panic, and_then, general_protocol_error, ◌>>=◌, ◌>>◌, gets, modify, zoom,
  pure, lift, unwrap, lift_assert,
}
use meesign_server.Base.Map.{Map, get, insert, remove}
use meesign_server.Communicator.{Communicator}
use meesign_server.Communicator.Messages.{Crypto, ClientMessage}
use meesign_server.Persistence.Models.{Group, TaskModel}
use meesign_server.Persistence.Names.{chars, is_control}
use meesign_server.Protocols.{round, last_round}
use meesign_server.Tasks.Helper.{Helper}
use meesign_server.Tasks.Info.{
  TaskInfo, RoundUpdate, listen, finished, failed, FinishedTask, TaskResult, signed, signed_pdf,
}
use meesign_server.Tasks.SignTask.{SignTask}
use meesign_server.Tasks.SignTask

pub record SignPdfTask : Type 0 where
  pub sign_task : SignTask

-- The children that wait for a signature, by task: the global `PDF_HELPERS`.
abbrev pub PdfHelpers : Type 0
PdfHelpers = Map ℕ ℕ

-- `SignPDFTask::try_new`; `len` counts bytes.
unfoldable pub try_new : TaskInfo → Group → Bytes → Communicator → Outcome SignPdfTask
unfolding SignTask.try_new chars is_control
try_new info group content c =
    if ltb 8388608 (length content) || ltb 256 (len info.name) || any is_control (chars info.name)
    then err (general_protocol_error "Invalid input")
    else and_then (SignTask.try_new info group content c) (λ t. ok (record { sign_task = t }))

-- `SignPDFTask::from_model`
unfoldable pub from_model : TaskInfo → TaskModel → Communicator → Group → Outcome SignPdfTask
unfolding SignTask.from_model
from_model info model c group =
    and_then (SignTask.from_model info model c group) (λ t. ok (record { sign_task = t }))

-- `request_hash`: no hash where the child prints less than a line.
unfoldable pub request_hash : Helper → ℕ → Bytes → Outcome Bytes
request_hash h child certificate = elim (h.hash_line child certificate) [
  | ok none ↦ ok []
  | ok (some hash) ↦ ok hash
  | err e ↦ err e
  | panic ↦ panic
]

-- `include_signature`: a signature that is not 64 bytes long does not fill the line.
unfoldable pub include_signature : Helper → ℕ → Bytes → Outcome Bytes
include_signature h child signature =
    if nat_beq (length signature) 64 then h.document child signature else panic

abbrev pub State : Type 0
State = PdfHelpers × SignPdfTask

-- A method of the inner task.
abbrev pub inner : {A : Type 0} → Exec SignTask A → Exec State A
inner = zoom (λ s. s.1.sign_task) (λ t s. (s.0, record { sign_task = t }))

fails : String → Exec State RoundUpdate
fails reason = gets (λ s. failed (record { task_info = s.1.sign_task.task_info; reason = reason }))

-- `let TaskResult::Signed(signature) = … else { unreachable!() }`
unfoldable pub signature_of : TaskResult → Outcome Bytes
signature_of (signed signature) = ok signature
signature_of _ = panic

-- `hash.is_empty()`
unfoldable pub is_empty : Bytes → Bool
is_empty b = nat_beq (length b) 0

module _ ⦃x : Crypto⦄ (h : Helper) where
  -- The end of `start_task`, once the child has printed a hash.
  unfoldable pub start_with : ℕ → Bytes → Exec State RoundUpdate
  unfolding fails is_empty SignTask.set_preprocessed SignTask.start_task
  start_with child hash = if is_empty hash then fails "Task failed (invalid PDF)" else (do
    modify (λ s. (insert s.1.sign_task.task_info.id child s.0, s.1))
    inner (modify (SignTask.set_preprocessed hash))
    inner SignTask.start_task)

  -- `start_task` with a child: the group's certificate is unwrapped.
  unfoldable pub start_child : ℕ → Exec State RoundUpdate
  unfolding start_with request_hash
  start_child child = do
    certificate ← λ s. (unwrap s.1.sign_task.group.certificate, s)
    hash ← lift (request_hash h child certificate)
    start_with child hash

  unfoldable pub start_task : Exec State RoundUpdate
  unfolding start_child fails
  start_task s =
      (if not h.file_created
          then fails "Task failed (server error)"
          else if not (h.file_written s.1.sign_task.content)
          then fails "Task failed (server error)"
          else (elim (h.spawn s.1.sign_task.content) [
            | none ↦ fails "Task failed (server error)"
            | some child ↦ start_child child
          ]))
        s

  unfoldable pub advance_task : Exec State RoundUpdate
  advance_task = inner SignTask.advance_task

  -- The document of a finished inner task, whose result is a signature.
  unfoldable pub include_result : ℕ → FinishedTask → Exec State RoundUpdate
  unfolding include_signature signature_of
  include_result r done = do
    s ← gets (λ s. s)
    child ← lift (unwrap (get s.1.sign_task.task_info.id s.0))
    modify (λ s. (remove s.1.sign_task.task_info.id s.0, s.1))
    signature ← lift (signature_of done.result)
    document ← lift (include_signature h child signature)
    pure (finished r (record done { result = signed_pdf document }))

  unfoldable pub attach : RoundUpdate → Exec State RoundUpdate
  unfolding include_result
  attach (finished r done) = include_result r done
  attach other = pure other

  unfoldable pub finalize_task : Exec State RoundUpdate
  finalize_task = do round_update ← inner SignTask.finalize_task; attach round_update

  unfoldable pub next_step : Exec State RoundUpdate
  next_step s =
      (if nat_beq (round s.1.sign_task.protocol) 0
          then start_task
          else if ltb (round s.1.sign_task.protocol) (last_round s.1.sign_task.protocol)
          then advance_task
          else finalize_task)
        s

  unfoldable pub update : Bytes → List ClientMessage → Exec State RoundUpdate
  update device_id messages = do
    full ← inner (SignTask.update_internal device_id messages)
    if full then next_step else pure listen

  -- `pdfhelper.kill().unwrap()` on the child of an earlier attempt, once it is off the list.
  unfoldable pub kill_child : Option ℕ → Exec State (Unit {0})
  kill_child none s = (ok tt, s)
  kill_child (some child) s =
      lift_assert (h.killed child) (pure tt) (remove s.1.sign_task.task_info.id s.0, s.1)

  unfoldable pub kill_helper : Exec State (Unit {0})
  unfolding kill_child
  kill_helper s = kill_child (get s.1.sign_task.task_info.id s.0) s

  unfoldable pub restart : Exec State RoundUpdate
  unfolding kill_helper start_task SignTask.increment_attempt_count
  restart = do kill_helper; inner (modify SignTask.increment_attempt_count); start_task
