-- ===== src/Examples/StoreCases.antt =====
-- Instances of the theorems on the database.
use meesign_server.Base.{
  ◌⊎◌, arith, pair_eq, inr, inl, Bool-cases, ℕ, ◌≡◌, ◌↔◌, refl, true, false, none, some, List, [],
  ◌∷◌, Bytes, any, nat_beq, bytes_beq, nat_eq, bytes_eq,
}
use meesign_server.Base.Exec.{ok}
use meesign_server.Base.Int.{ℤ}
use meesign_server.Base.Map.{insert, Map, get}
use meesign_server.Examples.{alice, RunningTaskContext}
use meesign_server.Persistence.Enums.{TaskState, DeviceKind, ProtocolType, KeyType, TaskType}
use meesign_server.Persistence.Models.{Verdict, TaskResultRow, try_into_result}
use meesign_server.Persistence.Postgres.{failure, TaskParticipantRow, select, Database, TaskRow}
use meesign_server.Persistence.Postgres.ActiveShares.{earlier, first_choice_stays}
use meesign_server.Persistence.Postgres.ActiveTasks.{IsOpen, active_exact}
use meesign_server.Persistence.Postgres.Consistent.{IsConsistent}
use meesign_server.Persistence.Postgres.Progress.{progress_stored}
use meesign_server.Persistence.Postgres.Queries.{candidates_exact, IsStarted}
use meesign_server.Persistence.Postgres.Reached.{
  Reached, created, next, no_rows, Call, after, reached-IsConsistent,
}
use meesign_server.Persistence.Postgres.Results.{agrees, result_ends}
use meesign_server.Persistence.Postgres.Tasks.{
  set_task_round, increment_task_attempt_count, get_active_device_tasks, set_task_active_shares,
  get_task_active_shares, stored_vote, get_restart_candidates, model_of, get_task_models,
  set_task_result, set_task_decision, get_task_decisions,
}
use meesign_server.TaskStore.StoredVotes.{Mirrors, stored_votes}
use meesign_server.Tasks.Info.{RunningTaskContext, DecisionUpdate}
use meesign_server.Tasks.Voting.{VotingTask, participant_of, outcome, accepts_rejects, decide}

-- A device and a group task for it, which is accepted and started.
abbrev pub with_device : Database
with_device = after (Call.add_device (1 ∷ []) "alice" DeviceKind.user (11 ∷ [])) no_rows

abbrev with_task : Database
with_task =
    after
      (Call.create_group_task 4 ((1 ∷ [], 2) ∷ []) 2 "signers" ProtocolType.gg18
        KeyType.sign_challenge [] none)
      with_device

abbrev with_vote : Database
with_vote = after (Call.set_task_decision 4 (1 ∷ []) true) with_task

abbrev with_round : Database
with_round = after (Call.set_task_round 4 1) with_vote

with_round-Reached : Reached with_round
with_round-Reached =
    next
      (next
        (next (next created (Call.add_device (1 ∷ []) "alice" DeviceKind.user (11 ∷ []))) (
          Call.create_group_task 4 ((1 ∷ [], 2) ∷ []) 2 "signers" ProtocolType.gg18
            KeyType.sign_challenge [] none))
        (Call.set_task_decision 4 (1 ∷ []) true))
      (Call.set_task_round 4 1)

reached-IsConsistent_example : IsConsistent with_round
reached-IsConsistent_example = reached-IsConsistent with_round-Reached

abbrev started : TaskRow
started = record {
  protocol_round = 1;
  attempt_count = 0;
  threshold = 2;
  name = "signers";
  task_data = none;
  preprocessed = none;
  request = [];
  group_id = none;
  task_type = TaskType.group;
  task_state = TaskState.created;
  key_type = KeyType.sign_challenge;
  protocol_type = ProtocolType.gg18;
  note = none;
  group_certificates_sent = some false;
}

consistent : IsConsistent with_round
consistent = reached-IsConsistent with_round-Reached

candidates_exact_example :
    (ids : List ℕ) × (get_restart_candidates with_round ≡ (ok ids, with_round))
    × ((any (nat_beq 4) ids ≡ true) ↔ (
        (row : TaskRow) × (get 4 with_round.task ≡ some row)
        × (get 4 with_round.task_result ≡ none)
        × IsStarted row))
candidates_exact_example = candidates_exact with_round 4 consistent

result_ends_example :
    let db' = (set_task_result 4 (Verdict.failed "late") with_round).1 in
    ((agrees (get 4 with_round.task_result) (Verdict.failed "late") ≡ true)
      × ((set_task_result 4 (Verdict.failed "late") with_round).0 ≡ ok tt)
      × ((r : TaskResultRow) × (get_task_models (4 ∷ []) db'
            ≡ (ok (model_of 4 started (some r) ∷ []), db'))
          × (try_into_result r ≡ ok (Verdict.failed "late")))
      × ((ids : List ℕ) × (get_restart_candidates db' ≡ (ok ids, db'))
          × (any (nat_beq 4) ids ≡ false)))
    ⊎ ((agrees (get 4 with_round.task_result) (Verdict.failed "late") ≡ false)
        × (set_task_result 4 (Verdict.failed "late") with_round ≡ (failure, with_round)))
unfolding get after insert bytes_beq
result_ends_example = result_ends with_round 4 started (Verdict.failed "late") consistent refl

-- A result, and then one of the other kind, which is refused.
other_kind_refused :
    let db' = (set_task_result 4 (Verdict.failed "late") with_round).1 in
    (set_task_result 4 (Verdict.succeeded []) db').0 ≡ failure
unfolding get after insert bytes_beq set_task_result
other_kind_refused = refl

abbrev asked : Database
asked = record no_rows {
  task_participant =
      ((4, 1 ∷ []), record { shares = 2; decision = none; acknowledgment = none }) ∷ [];
}

-- The task of that row, before its vote.
abbrev voted_on : VotingTask
voted_on = record {
  task_info = record {
    id = 4;
    name = "signers";
    task_type = TaskType.group;
    protocol_type = ProtocolType.gg18;
    key_type = KeyType.sign_challenge;
    participants = record { device = alice; shares = 2 } ∷ [];
    observers = [];
    attempts = 0;
    request = [];
  };
  decisions = [];
  accept_threshold = 2;
  running_task_context = RunningTaskContext.group 2 none;
}

voted_on-Mirrors : Mirrors voted_on asked
unfolding get bytes_beq participant_of stored_vote select
voted_on-Mirrors = record {
  keys_once = (refl, tt);
  votes_once = tt;
  shares_kept = λ d p known. elim (Bool-cases (bytes_beq (1 ∷ []) d)) [
    | inl hers ↦ ground (arith, hers, known)
    | inr other ↦ absurd (ground (arith, other, known))
  ];
  votes_kept = λ d. elim (Bool-cases (bytes_beq (1 ∷ []) d)) [
    | inl hers ↦ ground (arith, hers)
    | inr other ↦ ground (arith, other)
  ];
}

stored_votes_example :
    let t' = (decide (1 ∷ []) true voted_on).1 in
    let db' = (set_task_decision 4 (1 ∷ []) true asked).1 in
    Mirrors t' db'
    × ((r : Map Bytes ℤ) × ((get_task_decisions 4 db').0 ≡ ok r)
        × (accepts_rejects r ≡ accepts_rejects t'.decisions))
unfolding decide outcome bytes_beq insert
stored_votes_example =
    stored_votes voted_on asked (1 ∷ []) true DecisionUpdate.accepted voted_on-Mirrors refl

-- One share of the device is chosen, and then both.
abbrev with_choice : Database
with_choice = after (Call.set_task_active_shares 4 ((1 ∷ [], 1) ∷ [])) with_round

abbrev both : Map Bytes ℕ
both = (1 ∷ [], 2) ∷ []

abbrev with_choices : Database
with_choices = (set_task_active_shares 4 both with_choice).1

first_choice_stays_example :
    (r : Map Bytes ℕ) × (get_task_active_shares 4 with_choices ≡ (ok r, with_choices))
    × (get (1 ∷ []) r
        ≡ earlier (get (4, 1 ∷ []) with_choice.active_task_participant) (get (1 ∷ []) both))
unfolding get after insert set_task_active_shares bytes_beq
first_choice_stays_example = first_choice_stays 4 both with_choice with_choices (1 ∷ []) refl

active_exact_example :
    (ids : List ℕ) × (get_active_device_tasks (1 ∷ []) with_round ≡ (ok ids, with_round))
    × ((any (nat_beq 4) ids ≡ true) ↔ (
        (p : TaskParticipantRow) × (get (4, 1 ∷ []) with_round.task_participant ≡ some p)
        × IsOpen with_round 4 p))
active_exact_example = active_exact with_round (1 ∷ []) 4 consistent

with_round_row : get 4 with_round.task ≡ some started
unfolding get after insert bytes_beq
with_round_row = refl

progress_stored_example :
    let db1 = (set_task_round 4 2 with_round).1 in
    let db2 = (increment_task_attempt_count 4 with_round).1 in
    ((set_task_round 4 2 with_round).0 ≡ ok 2)
    × (get_task_models (4 ∷ []) db1 ≡ (
      ok (model_of 4 (record started { protocol_round = 2 }) (get 4 with_round.task_result) ∷ []),
      db1,
    ))
    × ((increment_task_attempt_count 4 with_round).0 ≡ ok 1)
    × (get_task_models (4 ∷ []) db2 ≡ (
      ok (model_of 4 (record started { attempt_count = 1 }) (get 4 with_round.task_result) ∷ []),
      db2,
    ))
progress_stored_example =
    progress_stored with_round 4 started with_round_row 2 consistent (omega arith) (omega arith)
