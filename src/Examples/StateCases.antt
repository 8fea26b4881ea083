-- ===== src/Examples/StateCases.antt =====
-- Instances of the theorems on the state of the server.
use meesign_server.Base.{
  ltb, ◌&&◌, some, none, if◌then◌else◌, inl, inr, Bool-cases, bytes_beq, bytes_beq_iff, zero, suc,
  ℕ, ◌≡◌, refl, true, List, [], ◌∷◌, Bytes, arith, bytes_eq, nat_eq, nat_beq, nat_beq_iff,
}
use meesign_server.Base.All.{All}
use meesign_server.Base.Exec.{ok}
use meesign_server.Base.Map.{IsMap, get, contains_key, Map}
use meesign_server.Examples.{alice, bob, ballot, plain, silent, signers, hello}
use meesign_server.Persistence.Enums.{TaskType, TaskState, KeyType, ProtocolType}
use meesign_server.Persistence.Models.{Participant, Device, TaskModel}
use meesign_server.Persistence.Repository.{Repository}
use meesign_server.State.{State, Services}
use meesign_server.State.Create.{group_participants}
use meesign_server.State.Created.{group_shares, occurrences}
use meesign_server.State.Decide.{decide_task}
use meesign_server.State.Keyed.{IsKeyed}
use meesign_server.State.Lifecycle.{LeadsOn, lifecycle}
use meesign_server.State.RestartCycle.{restarts_lifecycle}
use meesign_server.State.Update.{restart_stale_tasks, update_task, acknowledge_task}
use meesign_server.Tasks.Task.{voting, task_info}
use meesign_server.Tasks.Voting.Tally.{by_id}

abbrev row : TaskModel
row = record {
  id = 4;
  protocol_round = 0;
  attempt_count = 0;
  threshold = 2;
  name = "request";
  task_data = some (3 ∷ []);
  preprocessed = none;
  request = [];
  group_id = some (9 ∷ []);
  task_type = TaskType.sign_challenge;
  task_state = TaskState.created;
  key_type = KeyType.sign_challenge;
  protocol_type = ProtocolType.gg18;
  note = none;
  group_certificates_sent = none;
  result = none;
}

-- A database that keeps nothing and has no rows.
abbrev no_rows : Repository (Unit {0})
no_rows = record {
  add_device = λ id name kind cert r.
      (ok (record { id = id; name = name; kind = kind; certificate = cert }), r);
  get_devices = λ r. (ok [], r);
  get_group_participants = λ id r. (ok [], r);
  get_tasks_participants = λ ids r. (ok [], r);
  add_group = λ id task name threshold protocol key cert note r. (ok signers, r);
  get_group = λ id r. (ok none, r);
  get_groups = λ r. (ok [], r);
  get_device_groups = λ id r. (ok [], r);
  create_group_task = λ id ps threshold name protocol key request note r. (ok row, r);
  create_threshold_task = λ id g ps threshold name content request type key protocol r. (ok row, r);
  get_task_models = λ ids r. (ok [], r);
  get_tasks = λ r. (ok [], r);
  get_restart_candidates = λ r. (ok [], r);
  get_active_device_tasks = λ id r. (ok [], r);
  set_task_decision = λ id device accept r. (ok tt, r);
  get_task_decisions = λ id r. (ok [], r);
  set_task_acknowledgement = λ id device r. (ok tt, r);
  get_task_acknowledgements = λ id r. (ok [], r);
  set_task_active_shares = λ id shares r. (ok tt, r);
  get_task_active_shares = λ id r. (ok [], r);
  set_task_round = λ id n r. (ok n, r);
  increment_task_attempt_count = λ id r. (ok 1, r);
  set_task_result = λ id verdict r. (ok tt, r);
  set_task_group_certificates_sent = λ id sent r. (ok tt, r);
}

-- The first of the shares.
abbrev take : List Device → ℕ → List Device
take [] n = []
take (d ∷ ds) zero = []
take (d ∷ ds) (suc n) = d ∷ take ds n

abbrev services : Services (Unit {0}) (Unit {0})
services = record {
  db = no_rows;
  try_send = λ tx m. (true, tx);
  choose_multiple = take;
  helper = silent;
  encode_group_request = λ ids name threshold protocol key note. [];
  encode_sign_request = λ group name content. [];
  encode_decrypt_request = λ group name content kind. [];
}

-- The ballot is cached; Alice has made a request.
abbrev server : State (Unit {0}) (Unit {0})
server = record {
  devices = [];
  subscribers = (1 ∷ [], tt) ∷ [];
  task_store = record { task_cache = (4, voting ballot) ∷ []; repo = tt };
  task_last_updates = [];
  device_last_activations = (1 ∷ [], 100) ∷ [];
  helpers = [];
}

ballot_cached : get 4 server.task_store.task_cache ≡ some (voting ballot)
unfolding get
ballot_cached = refl

lifecycle_example :
    LeadsOn server 4 (voting ballot) (decide_task services ⦃x = plain⦄ 102 4 (2 ∷ []) true)
    × LeadsOn server 4
        (voting ballot)
        (update_task services ⦃x = plain⦄ 102 4 (2 ∷ []) (hello ∷ []) 0)
    × LeadsOn server 4 (voting ballot) (acknowledge_task services 4 (2 ∷ []))
lifecycle_example =
    lifecycle services ⦃x = plain⦄ server 4 (voting ballot) 102 4 (2 ∷ []) true (hello ∷ []) 0
      ballot_cached

abbrev registered : Map Bytes Device
registered = (1 ∷ [], alice) ∷ (2 ∷ [], bob) ∷ []

registered_keyed : (id : Bytes) (d : Device) → get id registered ≡ some d → d.id ≡ id
unfolding get bytes_beq
registered_keyed id d h = elim (Bool-cases (bytes_beq (1 ∷ []) id)) [
  | inl hers ↦ ground (arith, bytes_beq_iff (1 ∷ []) id)
  | inr other ↦ elim (Bool-cases (bytes_beq (2 ∷ []) id)) [
    | inl his ↦ ground (arith, bytes_beq_iff (2 ∷ []) id)
    | inr nobody ↦ absurd (ground arith)
  ]
]

-- Alice twice, Bob once, and a device that is not known.
group_shares_example :
    let ids : List Bytes = (1 ∷ []) ∷ (2 ∷ []) ∷ (1 ∷ []) ∷ (3 ∷ []) ∷ [] in
    (ps : List Participant) × (group_participants registered ids ≡ ok ps)
    × IsMap (by_id ps)
    × All (λ p. get p.device.id registered ≡ some p.device) ps
    × ((id : Bytes)
        → get id (by_id ps) ≡ (
            if contains_key id registered && ltb 0 (occurrences id ids)
            then some (occurrences id ids)
            else none))
group_shares_example =
    group_shares registered registered_keyed ((1 ∷ []) ∷ (2 ∷ []) ∷ (1 ∷ []) ∷ (3 ∷ []) ∷ [])
      (omega arith)

server-IsKeyed : IsKeyed server.task_store.task_cache
unfolding get task_info
server-IsKeyed k t h = elim (Bool-cases (nat_beq 4 k)) [
  | inl same ↦ ground (arith, nat_beq_iff 4 k)
  | inr other ↦ absurd (cc)
]

restarts_lifecycle_example :
    IsKeyed (restart_stale_tasks services ⦃x = plain⦄ 102 server).1.task_store.task_cache
    × LeadsOn server 4 (voting ballot) (restart_stale_tasks services ⦃x = plain⦄ 102)
restarts_lifecycle_example =
    restarts_lifecycle services ⦃x = plain⦄ 102 server 4 (voting ballot) server-IsKeyed
      ballot_cached
