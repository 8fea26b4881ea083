-- ===== src/Tasks/SignTask.antt =====
-- tasks/sign.rs: a task that signs a challenge.
pub mod Progress
use meesign_server.Base.{
  ℕ, ◌+◌, Bool, not, ◌&&◌, Option, none, some, List, [], Bytes, leb, ltb, nat_beq, if◌then◌else◌,
}
use meesign_server.Base.Exec.{
  Exec, Outcome, ok, err, and_then, or_raise, general_protocol_error, persistence_error,
  data_inconsistency_error, ◌>>=◌, ◌>>◌, gets, modify, zoom, raise, pure,
}
use meesign_server.Base.Int.{u32, u16}
use meesign_server.Communicator.{
  Communicator, clear_input, receive_messages, round_received, get_messages,
}
use meesign_server.Communicator
use meesign_server.Communicator.Messages.{Crypto, ClientMessage}
use meesign_server.Persistence.Enums.{ProtocolType, protocol_into_proto, key_into_proto}
use meesign_server.Persistence.Models.{Group, TaskModel}
use meesign_server.Protocols.{
  Protocol, gg18_sign, frost_sign, musig2_sign, create_threshold_protocol, round, last_round,
  initialize, advance, finalize,
}
use meesign_server.Protocols.Frost
use meesign_server.Protocols.Gg18
use meesign_server.Protocols.Musig2
use meesign_server.Tasks.Info.{
  TaskInfo, RoundUpdate, listen, next_round, finished, failed, finished_new, signed,
}

pub record SignTask : Type 0 where
  pub task_info : TaskInfo
  pub group : Group
  pub communicator : Communicator
  pub content : Bytes
  pub preprocessed : Option Bytes
  pub protocol : Protocol

-- The signing protocol of a group's type.
unfoldable pub signing_protocol : ProtocolType → Outcome Protocol
unfolding Gg18.sign_new Frost.sign_new Musig2.sign_new
signing_protocol ProtocolType.gg18 = ok (gg18_sign Gg18.sign_new)
signing_protocol ProtocolType.frost = ok (frost_sign Frost.sign_new)
signing_protocol ProtocolType.musig2 = ok (musig2_sign Musig2.sign_new)
signing_protocol ProtocolType.el_gamal =
    err (general_protocol_error "Unsupported protocol type for signing")

-- `SignTask::try_new`
unfoldable pub try_new : TaskInfo → Group → Bytes → Communicator → Outcome SignTask
unfolding signing_protocol
try_new info group content c = and_then (signing_protocol group.protocol) λ protocol. ok (record {
  task_info = info;
  group = group;
  communicator = c;
  content = content;
  preprocessed = none;
  protocol = protocol;
})

-- `SignTask::from_model`
unfoldable pub from_model : TaskInfo → TaskModel → Communicator → Group → Outcome SignTask
from_model info model c group =
    and_then
      (create_threshold_protocol (protocol_into_proto group.protocol)
        (key_into_proto group.key_type) (u16 model.protocol_round))
      λ protocol.
        and_then
          (or_raise
            (persistence_error (data_inconsistency_error "Task data not set for a sign task"))
            model.task_data)
          λ content. ok (record {
            task_info = info;
            group = group;
            communicator = c;
            content = content;
            preprocessed = model.preprocessed;
            protocol = protocol;
          })

-- `set_preprocessed`
unfoldable pub set_preprocessed : Bytes → SignTask → SignTask
set_preprocessed hash t = record t { preprocessed = some hash }

unfoldable pub increment_attempt_count : SignTask → SignTask
increment_attempt_count t = record t {
  task_info = record t.task_info { attempts = u32 (t.task_info.attempts + 1) };
}

-- `self.preprocessed.as_ref().unwrap_or(&self.data)`
unfoldable pub to_sign : SignTask → Bytes
to_sign t = elim t.preprocessed [ none ↦ t.content | some hash ↦ hash ]

-- The protocol and the communicator that it works on.
abbrev pub relayed_protocol : {A : Type 0} → Exec (Protocol × Communicator) A → Exec SignTask A
relayed_protocol m t =
    let (r, s) = m (t.protocol, t.communicator) in
    (r, record t { protocol = s.0; communicator = s.1 })

module _ ⦃x : Crypto⦄ where
  unfoldable pub start_task : Exec SignTask RoundUpdate
  unfolding to_sign
  start_task = do
    content ← gets to_sign
    relayed_protocol (λ s. (ok (tt {0}), initialize content s.0 s.1))
    gets (λ t. next_round (round t.protocol))

  unfoldable pub advance_task : Exec SignTask RoundUpdate
  advance_task = do
    relayed_protocol (λ s. advance s.0 s.1)
    gets (λ t. next_round (round t.protocol))

  -- The end of `finalize_task`, once the protocol has output the signature.
  unfoldable pub complete : Bytes → Exec SignTask RoundUpdate
  complete signature = do
    modify (λ t. record t { communicator = clear_input t.communicator })
    gets (λ t. finished (round t.protocol) (finished_new t.task_info (signed signature)))

  unfoldable pub finalize_task : Exec SignTask RoundUpdate
  finalize_task = do
    signature ← relayed_protocol (λ s. finalize s.0 s.1)
    elim signature [
      | none ↦ gets (λ t.
          failed
            (record { task_info = t.task_info; reason = "Task failed (signature not output)" }))
      | some bytes ↦ complete bytes
    ]

  unfoldable pub next_step : Exec SignTask RoundUpdate
  next_step t =
      (if nat_beq (round t.protocol) 0
          then start_task
          else if ltb (round t.protocol) (last_round t.protocol)
          then advance_task
          else finalize_task)
        t

  -- `update_internal`: whether the round is complete.
  unfoldable pub update_internal : Bytes → List ClientMessage → Exec SignTask Bool
  update_internal device_id messages t =
      (if not (Communicator.waiting_for t.communicator device_id)
          then raise (general_protocol_error "Wasn't waiting for a message from this ID.")
          else (do
            zoom (λ t. t.communicator) (λ c t. record t { communicator = c })
                (receive_messages device_id messages)
            gets (λ t.
                round_received t.communicator && leb (round t.protocol) (last_round t.protocol))))
        t

  unfoldable pub update : Bytes → List ClientMessage → Exec SignTask RoundUpdate
  update device_id messages = do
    full ← update_internal device_id messages
    if full then next_step else pure listen

  unfoldable pub restart : Exec SignTask RoundUpdate
  unfolding start_task increment_attempt_count
  restart = do modify increment_attempt_count; start_task

-- `get_work`
unfoldable pub get_work : SignTask → Bytes → List Bytes
get_work t device_id =
    if not (Communicator.waiting_for t.communicator device_id)
    then []
    else get_messages t.communicator device_id

-- `get_round`
unfoldable pub get_round : SignTask → ℕ
get_round t = round t.protocol
