-- ===== src/Tasks/DecryptTask.antt =====
-- tasks/decrypt.rs: a task that decrypts.
pub mod Progress
use meesign_server.Base.{
  ℕ, ◌+◌, Bool, not, ◌&&◌, none, some, List, [], Bytes, leb, ltb, nat_beq, if◌then◌else◌,
}
use meesign_server.Base.Exec.{
  Exec, Outcome, ok, and_then, or_raise, general_protocol_error, persistence_error,
  data_inconsistency_error, ◌>>=◌, ◌>>◌, gets, modify, zoom, raise, pure,
}
use meesign_server.Base.Int.{u32, u16}
use meesign_server.Communicator.{
  Communicator, clear_input, receive_messages, round_received, get_messages,
}
use meesign_server.Communicator
use meesign_server.Communicator.Messages.{Crypto, ClientMessage}
use meesign_server.Persistence.Enums.{protocol_into_proto, key_into_proto}
use meesign_server.Persistence.Models.{Group, TaskModel}
use meesign_server.Protocols.{
  Protocol, elgamal_decrypt, create_threshold_protocol, round, last_round, initialize, advance,
  finalize,
}
use meesign_server.Protocols.Elgamal
use meesign_server.Tasks.Info.{
  TaskInfo, RoundUpdate, listen, next_round, finished, failed, finished_new, decrypted,
}

pub record DecryptTask : Type 0 where
  pub task_info : TaskInfo
  pub group : Group
  pub communicator : Communicator
  pub content : Bytes
  pub protocol : Protocol

-- `DecryptTask::new`
unfoldable pub new : TaskInfo → Group → Bytes → Communicator → DecryptTask
unfolding Elgamal.sign_new
new info group content c = record {
  task_info = info;
  group = group;
  communicator = c;
  content = content;
  protocol = elgamal_decrypt Elgamal.sign_new;
}

-- `DecryptTask::from_model`
unfoldable pub from_model : TaskInfo → TaskModel → Communicator → Group → Outcome DecryptTask
from_model info model c group =
    and_then
      (create_threshold_protocol (protocol_into_proto group.protocol)
        (key_into_proto group.key_type) (u16 model.protocol_round))
      λ protocol.
        and_then
          (or_raise
            (persistence_error (data_inconsistency_error "Task data not set for a sign task"))
            model.task_data)
          λ content. ok (record {
            task_info = info;
            group = group;
            communicator = c;
            content = content;
            protocol = protocol;
          })

unfoldable pub increment_attempt_count : DecryptTask → DecryptTask
increment_attempt_count t = record t {
  task_info = record t.task_info { attempts = u32 (t.task_info.attempts + 1) };
}

-- The protocol and the communicator that it works on.
abbrev pub relayed_protocol : {A : Type 0} → Exec (Protocol × Communicator) A → Exec DecryptTask A
relayed_protocol m t =
    let (r, s) = m (t.protocol, t.communicator) in
    (r, record t { protocol = s.0; communicator = s.1 })

module _ ⦃x : Crypto⦄ where
  unfoldable pub start_task : Exec DecryptTask RoundUpdate
  start_task = do
    content ← gets (λ t. t.content)
    relayed_protocol (λ s. (ok (tt {0}), initialize content s.0 s.1))
    gets (λ t. next_round (round t.protocol))

  unfoldable pub advance_task : Exec DecryptTask RoundUpdate
  advance_task = do
    relayed_protocol (λ s. advance s.0 s.1)
    gets (λ t. next_round (round t.protocol))

  -- The end of `finalize_task`, once the protocol has output the data.
  unfoldable pub complete : Bytes → Exec DecryptTask RoundUpdate
  complete plain = do
    modify (λ t. record t { communicator = clear_input t.communicator })
    gets (λ t. finished (round t.protocol) (finished_new t.task_info (decrypted plain)))

  unfoldable pub finalize_task : Exec DecryptTask RoundUpdate
  finalize_task = do
    plain ← relayed_protocol (λ s. finalize s.0 s.1)
    elim plain [
      | none ↦ gets (λ t.
          failed (record { task_info = t.task_info; reason = "Task failed (data not output)" }))
      | some bytes ↦ complete bytes
    ]

  unfoldable pub next_step : Exec DecryptTask RoundUpdate
  next_step t =
      (if nat_beq (round t.protocol) 0
          then start_task
          else if ltb (round t.protocol) (last_round t.protocol)
          then advance_task
          else finalize_task)
        t

  -- `update_internal`: whether the round is complete.
  unfoldable pub update_internal : Bytes → List ClientMessage → Exec DecryptTask Bool
  update_internal device_id messages t =
      (if not (Communicator.waiting_for t.communicator device_id)
          then raise (general_protocol_error "Wasn't waiting for a message from this ID.")
          else (do
            zoom (λ t. t.communicator) (λ c t. record t { communicator = c })
                (receive_messages device_id messages)
            gets (λ t.
                round_received t.communicator && leb (round t.protocol) (last_round t.protocol))))
        t

  unfoldable pub update : Bytes → List ClientMessage → Exec DecryptTask RoundUpdate
  update device_id messages = do
    full ← update_internal device_id messages
    if full then next_step else pure listen

  unfoldable pub restart : Exec DecryptTask RoundUpdate
  unfolding start_task increment_attempt_count
  restart = do modify increment_attempt_count; start_task

-- `get_work`
unfoldable pub get_work : DecryptTask → Bytes → List Bytes
get_work t device_id =
    if not (Communicator.waiting_for t.communicator device_id)
    then []
    else get_messages t.communicator device_id

-- `get_round`
unfoldable pub get_round : DecryptTask → ℕ
get_round t = round t.protocol
