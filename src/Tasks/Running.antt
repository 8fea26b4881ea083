-- ===== src/Tasks/Running.antt =====
-- `RunningTask` and `RunningTaskContext::create_running_task` of tasks/mod.rs: the four kinds of
-- running tasks and the dispatch to them.
use meesign_server.Base.{ℕ, Bool, List, Bytes}
use meesign_server.Base.Exec.{Exec, Outcome, ok, and_then}
use meesign_server.Base.Map.{Map}
use meesign_server.Communicator.{Communicator}
use meesign_server.Communicator
use meesign_server.Communicator.Messages.{Crypto, ClientMessage}
use meesign_server.Persistence.Enums.{protocol_into_proto}
use meesign_server.Persistence.Models.{Device}
use meesign_server.Tasks.DecryptTask
use meesign_server.Tasks.GroupTask
use meesign_server.Tasks.Helper.{Helper}
use meesign_server.Tasks.Info.{
  TaskInfo, RoundUpdate, RunningTaskContext, group, sign_challenge, sign_pdf, decrypt,
}
use meesign_server.Tasks.SignPdfTask.{PdfHelpers}
use meesign_server.Tasks.SignPdfTask
use meesign_server.Tasks.SignTask
use meesign_server.Tasks.Voting.{VotingTask}

-- `Box<dyn RunningTask>`, by implementation.
pub data RunningTask : Type 0 where
  group_task : GroupTask.GroupTask → RunningTask
  sign_task : SignTask.SignTask → RunningTask
  sign_pdf_task : SignPdfTask.SignPdfTask → RunningTask
  decrypt_task : DecryptTask.DecryptTask → RunningTask

-- `RunningTask::task_info`
unfoldable pub task_info : RunningTask → TaskInfo
task_info (group_task t) = t.task_info
task_info (sign_task t) = t.task_info
task_info (sign_pdf_task t) = t.sign_task.task_info
task_info (decrypt_task t) = t.task_info

unfoldable pub communicator : RunningTask → Communicator
communicator (group_task t) = t.communicator
communicator (sign_task t) = t.communicator
communicator (sign_pdf_task t) = t.sign_task.communicator
communicator (decrypt_task t) = t.communicator

-- `RunningTask::waiting_for`
unfoldable pub waiting_for : RunningTask → Bytes → Bool
unfolding communicator
waiting_for t device_id = Communicator.waiting_for (communicator t) device_id

-- `RunningTask::get_work`
unfoldable pub get_work : RunningTask → Bytes → List Bytes
unfolding GroupTask.get_work SignTask.get_work DecryptTask.get_work
get_work (group_task t) device_id = GroupTask.get_work t device_id
get_work (sign_task t) device_id = SignTask.get_work t device_id
get_work (sign_pdf_task t) device_id = SignTask.get_work t.sign_task device_id
get_work (decrypt_task t) device_id = DecryptTask.get_work t device_id

-- `RunningTask::get_round`
unfoldable pub get_round : RunningTask → ℕ
unfolding GroupTask.get_round SignTask.get_round DecryptTask.get_round
get_round (group_task t) = GroupTask.get_round t
get_round (sign_task t) = SignTask.get_round t
get_round (sign_pdf_task t) = SignTask.get_round t.sign_task
get_round (decrypt_task t) = DecryptTask.get_round t

-- A running task with the children that wait for a signature.
abbrev pub Running : Type 0
Running = PdfHelpers × RunningTask

-- A method of a task that does not use the children.
abbrev pub method :
    {T A : Type 0} → (T → RunningTask) → Exec T A → PdfHelpers → T → Outcome A × Running
method box m helpers t = let (r, t') = m t in (r, (helpers, box t'))

-- A method of a task that signs a document.
abbrev pub pdf_method :
    {A : Type 0}
    → Exec (PdfHelpers × SignPdfTask.SignPdfTask) A
    → PdfHelpers
    → SignPdfTask.SignPdfTask
    → Outcome A × Running
pdf_method m helpers t = let (r, s) = m (helpers, t) in (r, (s.0, sign_pdf_task s.1))

module _ ⦃x : Crypto⦄ (h : Helper) where
  -- `RunningTask::initialize`
  unfoldable pub initialize : Exec Running RoundUpdate
  unfolding GroupTask.send_certificates SignTask.start_task SignPdfTask.start_task
      DecryptTask.start_task
  initialize (helpers, group_task t) = method group_task (GroupTask.send_certificates h) helpers t
  initialize (helpers, sign_task t) = method sign_task SignTask.start_task helpers t
  initialize (helpers, sign_pdf_task t) = pdf_method (SignPdfTask.start_task h) helpers t
  initialize (helpers, decrypt_task t) = method decrypt_task DecryptTask.start_task helpers t

  -- `RunningTask::update`
  unfoldable pub update : Bytes → List ClientMessage → Exec Running RoundUpdate
  unfolding GroupTask.update SignTask.update SignPdfTask.update DecryptTask.update
  update id messages (helpers, group_task t) =
      method group_task (GroupTask.update h id messages) helpers t
  update id messages (helpers, sign_task t) =
      method sign_task (SignTask.update id messages) helpers t
  update id messages (helpers, sign_pdf_task t) =
      pdf_method (SignPdfTask.update h id messages) helpers t
  update id messages (helpers, decrypt_task t) =
      method decrypt_task (DecryptTask.update id messages) helpers t

  -- `RunningTask::restart`
  unfoldable pub restart : Exec Running RoundUpdate
  unfolding GroupTask.restart SignTask.restart SignPdfTask.restart DecryptTask.restart
  restart (helpers, group_task t) = method group_task (GroupTask.restart h) helpers t
  restart (helpers, sign_task t) = method sign_task SignTask.restart helpers t
  restart (helpers, sign_pdf_task t) = pdf_method (SignPdfTask.restart h) helpers t
  restart (helpers, decrypt_task t) = method decrypt_task DecryptTask.restart helpers t

-- The task of a context over its communicator.
unfoldable pub task_of : RunningTaskContext → TaskInfo → Communicator → Outcome RunningTask
unfolding GroupTask.try_new SignTask.try_new SignPdfTask.try_new DecryptTask.new
task_of (group threshold note) info c =
    and_then (GroupTask.try_new info threshold note c) (λ t. ok (group_task t))
task_of (sign_challenge g content) info c =
    and_then (SignTask.try_new info g content c) (λ t. ok (sign_task t))
task_of (sign_pdf g content) info c =
    and_then (SignPdfTask.try_new info g content c) (λ t. ok (sign_pdf_task t))
task_of (decrypt g content) info c = ok (decrypt_task (DecryptTask.new info g content c))

-- `RunningTaskContext::create_running_task`
unfoldable pub create_running_task :
    RunningTaskContext → VotingTask → Map ℕ Device → Outcome RunningTask
unfolding task_of
create_running_task context voting active_shares =
    and_then
      (Communicator.new voting.accept_threshold (protocol_into_proto voting.task_info.protocol_type)
        active_shares)
      (task_of context voting.task_info)
