-- ===== src/Tasks/Updated/AllTasks.antt =====
-- `RunningTask::update` of tasks/mod.rs keeps the information of a task, in every implementation.
use meesign_server.Base.{◌≡◌, refl, Bytes, List}
use meesign_server.Communicator.Messages.{Crypto, ClientMessage}
use meesign_server.Tasks.Helper.{Helper}
use meesign_server.Tasks.Running.{
  Running, task_info, update, group_task, sign_task, sign_pdf_task, decrypt_task,
}
use meesign_server.Tasks.Updated.{Reports}
use meesign_server.Tasks.Updated.Decryption.{decrypt_update-Tells}
use meesign_server.Tasks.Updated.Documents.{pdf_update-Tells}
use meesign_server.Tasks.Updated.Groups.{group_update-Tells}
use meesign_server.Tasks.Updated.Signing.{sign_update-Tells}

-- Messages never change what a running task is: whichever of the four kinds of tasks, sender,
-- messages, helper and protocol, and whether the update succeeds, fails or panics, the task keeps
-- its identifier, name, participants, observers, number of attempts and request, and a task that
-- the update reports as finished or as failed has just the same.
pub update_keeps_info :
    ⦃x : Crypto⦄ (h : Helper) (id : Bytes) (messages : List ClientMessage) (s : Running)
    → Reports (task_info s.1) (update h id messages s).0
      × (task_info (update h id messages s).1.1 ≡ task_info s.1)
unfolding update task_info
update_keeps_info h id messages (helpers, group_task t) =
    group_update-Tells h t.task_info id messages t refl
update_keeps_info h id messages (helpers, sign_task t) =
    sign_update-Tells t.task_info id messages t refl
update_keeps_info h id messages (helpers, sign_pdf_task t) =
    pdf_update-Tells h t.sign_task.task_info id messages (helpers, t) refl
update_keeps_info h id messages (helpers, decrypt_task t) =
    decrypt_update-Tells t.task_info id messages t refl
