-- ===== src/Tasks/GroupTask.antt =====
-- tasks/group.rs: a task that establishes a group.
pub mod Progress
use meesign_server.Base.{
  nat_eq, ℕ, ◌+◌, String, Bool, true, false, not, ◌&&◌, Option, none, some, List, [], ◌∷◌, ◌++◌,
  map, Bytes, leb, ltb, nat_beq, length, bytes_leb, sort_by, if◌then◌else◌,
}
use meesign_server.Base.Exec.{
  and_then, Exec, Outcome, ok, err, panic, io_error, or_raise, general_protocol_error,
  persistence_error, data_inconsistency_error, ◌>>=◌, ◌>>◌, lift, gets, modify, zoom, raise, pure,
  lift_assert,
}
use meesign_server.Base.Int.{u32, u16}
use meesign_server.Base.Map.{extend}
use meesign_server.Communicator.{
  Communicator, identifier_to_indices, send_all, clear_input, receive_messages, round_received,
  get_messages,
}
use meesign_server.Communicator
use meesign_server.Communicator.Messages.{Crypto, ClientMessage}
use meesign_server.Persistence.Enums.{
  protocol_into_proto, protocol_from_proto, key_into_proto, is_gg18,
}
use meesign_server.Persistence.Models.{Participant, Group, TaskModel}
use meesign_server.Protocols.{
  Protocol, create_keygen_protocol, check_threshold, round, last_round, get_type, initialize,
  advance, finalize,
}
use meesign_server.Tasks.Helper.{Helper}
use meesign_server.Tasks.Info.{
  TaskInfo, total_shares, RoundUpdate, listen, group_certificates_sent, next_round, finished,
  failed, finished_new, group_established,
}

pub record GroupTask : Type 0 where
  pub task_info : TaskInfo
  pub threshold : ℕ
  pub communicator : Communicator
  pub protocol : Protocol
  pub note : Option String
  pub certificates_sent : Bool

-- The participants in the order of their identifiers.
unfoldable pub sort_participants : List Participant → List Participant
sort_participants = sort_by (λ p q. bytes_leb p.device.id q.device.id)

-- The task once its protocol is chosen, with the checks of `try_new`.
unfoldable pub checked : TaskInfo → ℕ → Option String → Communicator → Protocol → Outcome GroupTask
unfolding sort_participants
checked info threshold note c protocol =
    if ltb (total_shares info) 1
    then err (general_protocol_error "Invalid input")
    else if not (check_threshold (get_type protocol) threshold (total_shares info))
    then err (general_protocol_error "Invalid input")
    else ok (record {
      task_info = record info { participants = sort_participants info.participants };
      threshold = threshold;
      communicator = c;
      protocol = protocol;
      note = note;
      certificates_sent = false;
    })

-- `GroupTask::try_new`
unfoldable pub try_new : TaskInfo → ℕ → Option String → Communicator → Outcome GroupTask
unfolding checked
try_new info threshold note c =
    and_then
      (create_keygen_protocol (protocol_into_proto info.protocol_type)
        (key_into_proto info.key_type) (total_shares info) threshold 0)
      (checked info threshold note c)

-- `GroupTask::from_model`
unfoldable pub from_model : TaskInfo → TaskModel → Communicator → Outcome GroupTask
from_model info model c =
    and_then
      (create_keygen_protocol (protocol_into_proto model.protocol_type)
        (key_into_proto model.key_type) (total_shares info) model.threshold
        (u16 model.protocol_round))
      (λ protocol. elim model.group_certificates_sent [
        | none ↦ err (
            persistence_error
              (data_inconsistency_error "certificates_sent flag missing in group task"))
        | some sent ↦ ok (record {
          task_info = info;
          threshold = model.threshold;
          communicator = c;
          protocol = protocol;
          note = model.note;
          certificates_sent = sent;
        })
      ])

unfoldable pub increment_attempt_count : GroupTask → GroupTask
increment_attempt_count t = record t {
  task_info = record t.task_info { attempts = u32 (t.task_info.attempts + 1) };
}

-- The protocol and the communicator that it works on.
abbrev pub relayed_protocol : {A : Type 0} → Exec (Protocol × Communicator) A → Exec GroupTask A
relayed_protocol m t =
    let (r, s) = m (t.protocol, t.communicator) in
    (r, record t { protocol = s.0; communicator = s.1 })

-- The certificates of the participants by protocol index.
unfoldable pub certificates : Communicator → List Participant → List (ℕ × Bytes)
certificates c [] = []
certificates c (p ∷ ps) =
    map (λ idx. (idx, p.device.certificate)) (identifier_to_indices c p.device.id)
    ++ certificates c ps

-- `issue_certificate`
unfoldable pub issue_certificate : Helper → String → Bytes → Outcome Bytes
issue_certificate h name public_key =
    if nat_beq (length public_key) 65 then or_raise io_error (h.cert name public_key) else panic

-- The group that the task establishes.
unfoldable pub established : GroupTask → Bytes → Option Bytes → Group
established t id certificate = record {
  id = id;
  name = t.task_info.name;
  threshold = t.threshold;
  protocol = protocol_from_proto (get_type t.protocol);
  key_type = t.task_info.key_type;
  certificate = certificate;
  note = t.note;
  participant_ids_shares = map (λ p. (p.device.id, p.shares)) t.task_info.participants;
}

-- The certificate of a new group: only GG18 groups have one.
unfoldable pub group_certificate : Helper → GroupTask → Bytes → Outcome (Option Bytes)
unfolding issue_certificate
group_certificate h t id =
    if is_gg18 (get_type t.protocol)
    then and_then (issue_certificate h t.task_info.name id) (λ cert. ok (some cert))
    else ok none

module _ ⦃x : Crypto⦄ (h : Helper) where
  unfoldable pub start_task : Exec GroupTask RoundUpdate
  start_task = do
    relayed_protocol (λ s. (ok (tt {0}), initialize [] s.0 s.1))
    gets (λ t. next_round (round t.protocol))

  unfoldable pub advance_task : Exec GroupTask RoundUpdate
  advance_task = do
    relayed_protocol (λ s. advance s.0 s.1)
    gets (λ t. next_round (round t.protocol))

  -- The end of `finalize_task`, once the protocol has output the group's identifier.
  unfoldable pub establish : Bytes → Exec GroupTask RoundUpdate
  unfolding group_certificate established
  establish id = do
    t ← gets (λ t. t)
    certificate ← lift (group_certificate h t id)
    modify (λ t. record t { communicator = clear_input t.communicator })
    gets (λ t.
        finished (round t.protocol)
          (finished_new t.task_info (group_established (established t id certificate))))

  unfoldable pub finalize_task : Exec GroupTask RoundUpdate
  finalize_task = do
    identifier ← relayed_protocol (λ s. finalize s.0 s.1)
    elim identifier [
      | none ↦ gets (λ t.
          failed
            (record { task_info = t.task_info; reason = "Task failed (group key not output)" }))
      | some id ↦ establish id
    ]

  unfoldable pub send_certificates : Exec GroupTask RoundUpdate
  unfolding certificates
  send_certificates t = (
    ok group_certificates_sent,
    record t {
      communicator =
          send_all
            (λ idx. x.encode_server_message (record {
              protocol_type = get_type t.protocol;
              unicasts = [];
              broadcasts = extend [] (certificates t.communicator t.task_info.participants);
            }))
            t.communicator;
      certificates_sent = true;
    },
  )

  unfoldable pub next_step : Exec GroupTask RoundUpdate
  next_step t =
      (if not t.certificates_sent
          then send_certificates
          else if nat_beq (round t.protocol) 0
          then start_task
          else if ltb (round t.protocol) (last_round t.protocol)
          then advance_task
          else finalize_task)
        t

  -- The end of `update`, once the messages are buffered.
  unfoldable pub after_receive : Exec GroupTask RoundUpdate
  after_receive t =
      (if round_received t.communicator && leb (round t.protocol) (last_round t.protocol)
          then next_step
          else pure listen)
        t

  unfoldable pub update : Bytes → List ClientMessage → Exec GroupTask RoundUpdate
  update device_id messages t =
      (if not (Communicator.waiting_for t.communicator device_id)
          then raise (general_protocol_error "Wasn't waiting for a message from this ID.")
          else lift_assert t.certificates_sent (do
            zoom (λ t. t.communicator) (λ c t. record t { communicator = c })
                (receive_messages device_id messages)
            after_receive))
        t

  unfoldable pub restart : Exec GroupTask RoundUpdate
  unfolding start_task increment_attempt_count
  restart = do modify increment_attempt_count; start_task

-- `get_work`
unfoldable pub get_work : GroupTask → Bytes → List Bytes
get_work t device_id =
    if not (Communicator.waiting_for t.communicator device_id)
    then []
    else get_messages t.communicator device_id

-- `get_round`
unfoldable pub get_round : GroupTask → ℕ
get_round t = if not t.certificates_sent then 0 else u16 (round t.protocol + 1)
