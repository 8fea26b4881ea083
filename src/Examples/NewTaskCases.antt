-- ===== src/Examples/NewTaskCases.antt =====
-- Instances of the theorems on new tasks that are stored and hydrated.
use mathlib.Core.List.{Permᴰ}
use meesign_server.Base.{
  Option, any, keep, find, pair_eq, ℕ, ◌≡◌, refl, none, List, [], ◌∷◌, Bytes, bytes_beq, nat_eq,
  bytes_eq,
}
use meesign_server.Base.Exec.{ok}
use meesign_server.Base.Int.{ℤ}
use meesign_server.Base.Map.{insert, Map, get}
use meesign_server.Examples.{bob, alice, RunningTaskContext}
use meesign_server.Examples.StoreCases.{with_device}
use meesign_server.Persistence.Enums.{DeviceKind, ProtocolType, KeyType, TaskType}
use meesign_server.Persistence.Models.{Participant, Group}
use meesign_server.Persistence.Postgres.{Database}
use meesign_server.Persistence.Postgres.GroupQueries.{groups_agree, SameFound, SameGroups}
use meesign_server.Persistence.Postgres.Groups.{get_groups, get_group, get_device_groups}
use meesign_server.Persistence.Postgres.Reached.{
  Reached, created, next, Call, after, reached-IsConsistent,
}
use meesign_server.Persistence.Postgres.Reordered.{Reordered}
use meesign_server.Persistence.Postgres.Repo.{postgres}
use meesign_server.State.Create.{new_task, group_info, threshold_info}
use meesign_server.TaskStore.{persist_context}
use meesign_server.TaskStore.Hydrate.{hydrate_tasks}
use meesign_server.TaskStore.NewTasks.GroupRequests.{group_request, group_task_survives}
use meesign_server.TaskStore.NewTasks.ThresholdRequests.{
  with_shares, threshold_request, unobserved, threshold_task_survives,
}
use meesign_server.TaskStore.Rows.{context_of}
use meesign_server.Tasks.Info.{RunningTaskContext}
use meesign_server.Tasks.Task.{voting}
use meesign_server.Tasks.Voting.{VotingTask, accepts_rejects}
use mathlib.Core.List.Permᴰ

abbrev both : List Participant
both = record { device = alice; shares = 2 } ∷ record { device = bob; shares = 1 } ∷ []

abbrev with_both : Database
with_both = after (Call.add_device (2 ∷ []) "bob" DeviceKind.bot (12 ∷ [])) with_device

with_both-Reached : Reached with_both
with_both-Reached =
    next (next created (Call.add_device (1 ∷ []) "alice" DeviceKind.user (11 ∷ [])))
      (Call.add_device (2 ∷ []) "bob" DeviceKind.bot (12 ∷ []))

abbrev with_request : Database
with_request =
    (persist_context postgres
      (group_request 5 "others" ProtocolType.gg18 KeyType.sign_challenge both [] 2 none)
      (RunningTaskContext.group 2 none) with_both).1

-- The participants, the last first.
abbrev turned : Database
turned = record with_request {
  task_participant =
      ((5, 2 ∷ []), record { shares = 1; decision = none; acknowledgment = none })
      ∷ ((5, 1 ∷ []), record { shares = 2; decision = none; acknowledgment = none })
      ∷ [];
}

turned-Reordered : Reordered with_request turned
unfolding get after insert postgres persist_context bytes_beq new_task group_info
turned-Reordered = record {
  device = Permᴰ.refl _;
  groups = Permᴰ.refl _;
  group_participant = Permᴰ.refl _;
  task = Permᴰ.refl _;
  task_result = Permᴰ.refl _;
  task_participant = Permᴰ.swap refl refl;
  active_task_participant = Permᴰ.refl _;
}

abbrev others : List Participant → VotingTask
others qs = group_request 5 "others" ProtocolType.gg18 KeyType.sign_challenge qs [] 2 none

group_task_survives_example :
    (qs : List Participant) × (r : Map Bytes ℤ) × Permᴰ both qs
    × (hydrate_tasks postgres (5 ∷ []) turned
        ≡ (ok (voting (record (others qs) { decisions = r }) ∷ []), turned))
    × ((others qs).accept_threshold ≡ (others both).accept_threshold)
    × (accepts_rejects r ≡ accepts_rejects (others both).decisions)
unfolding get after insert postgres persist_context bytes_beq new_task group_info
group_task_survives_example =
    group_task_survives 5 "others" ProtocolType.gg18 KeyType.sign_challenge both [] 2 none with_both
      with_request turned (reached-IsConsistent with_both-Reached) (refl, (refl, tt)) refl
      turned-Reordered

-- The request is stored, and a group is made of it.
abbrev with_pair : Database
with_pair =
    after (Call.add_group (9 ∷ []) 5 "signers" 2 ProtocolType.gg18 KeyType.sign_challenge none none)
      (after
        (Call.create_group_task 5 ((1 ∷ [], 2) ∷ (2 ∷ [], 1) ∷ []) 2 "others" ProtocolType.gg18
          KeyType.sign_challenge [] none)
        with_both)

with_pair-Reached : Reached with_pair
with_pair-Reached =
    next
      (next with_both-Reached (
        Call.create_group_task 5 ((1 ∷ [], 2) ∷ (2 ∷ [], 1) ∷ []) 2 "others" ProtocolType.gg18
          KeyType.sign_challenge [] none))
      (Call.add_group (9 ∷ []) 5 "signers" 2 ProtocolType.gg18 KeyType.sign_challenge none none)

-- The participants of the group, the last first.
abbrev last_first : Map (Bytes × Bytes) ℕ
last_first = ((9 ∷ [], 2 ∷ []), 1) ∷ ((9 ∷ [], 1 ∷ []), 2) ∷ []

abbrev turned_pair : Database
turned_pair = record with_pair { group_participant = last_first }

turned_pair-Reordered : Reordered with_pair turned_pair
unfolding get after insert bytes_beq
turned_pair-Reordered = record {
  device = Permᴰ.refl _;
  groups = Permᴰ.refl _;
  group_participant = Permᴰ.swap refl refl;
  task = Permᴰ.refl _;
  task_result = Permᴰ.refl _;
  task_participant = Permᴰ.refl _;
  active_task_participant = Permᴰ.refl _;
}

groups_agree_example :
    (all own listed : List Group) × (one : Option Group) × (get_groups with_pair
      ≡ (ok all, with_pair))
    × (get_group (9 ∷ []) turned_pair ≡ (ok one, turned_pair))
    × SameFound (find (λ (x : Group). bytes_beq x.id (9 ∷ [])) all) one
    × (get_device_groups (1 ∷ []) turned_pair ≡ (ok own, turned_pair))
    × Permᴰ
        (keep (λ (x : Group). any (λ p. bytes_beq p.0 (1 ∷ [])) x.participant_ids_shares) all)
        listed
    × SameGroups listed own
groups_agree_example =
    groups_agree with_pair turned_pair turned_pair (1 ∷ []) (9 ∷ [])
      (reached-IsConsistent with_pair-Reached) turned_pair-Reordered turned_pair-Reordered

-- The group as its rows give it.
abbrev of_both : Group
of_both = record {
  id = 9 ∷ [];
  name = "signers";
  threshold = 2;
  protocol = ProtocolType.gg18;
  key_type = KeyType.sign_challenge;
  certificate = none;
  note = none;
  participant_ids_shares = (1 ∷ [], 2) ∷ (2 ∷ [], 1) ∷ [];
}

abbrev signing : VotingTask
signing =
    threshold_request 6 "contract" TaskType.sign_challenge of_both (3 ∷ [])
      (RunningTaskContext.sign_challenge of_both (3 ∷ [])) both ((8 ∷ []) ∷ []) []

abbrev with_signing : Database
with_signing =
    (persist_context postgres signing (RunningTaskContext.sign_challenge of_both (3 ∷ []))
      with_pair).1

abbrev turned_signing : Database
turned_signing = record with_signing { group_participant = last_first }

turned_signing-Reordered : Reordered with_signing turned_signing
unfolding get after insert postgres persist_context bytes_beq new_task threshold_info
turned_signing-Reordered = record {
  device = Permᴰ.refl _;
  groups = Permᴰ.refl _;
  group_participant = Permᴰ.swap refl refl;
  task = Permᴰ.refl _;
  task_result = Permᴰ.refl _;
  task_participant = Permᴰ.refl _;
  active_task_participant = Permᴰ.refl _;
}

is_signing :
    context_of TaskType.sign_challenge of_both (3 ∷ [])
    ≡ ok (RunningTaskContext.sign_challenge of_both (3 ∷ []))
unfolding context_of
is_signing = refl

threshold_task_survives_example :
    (qs : List Participant) × (shares : List (Bytes × ℕ)) × (new : RunningTaskContext) × (r : Map
      Bytes ℤ)
    × Permᴰ both qs
    × Permᴰ of_both.participant_ids_shares shares
    × (context_of TaskType.sign_challenge (with_shares shares of_both) (3 ∷ []) ≡ ok new)
    × (hydrate_tasks postgres (6 ∷ []) turned_signing ≡ (
      ok (
          voting (
            unobserved 6 "contract" TaskType.sign_challenge
              (with_shares shares of_both)
              (3 ∷ [])
              new
              qs
              ((8 ∷ []) ∷ [])
              []
              r)
          ∷ []),
      turned_signing,
    ))
    × (accepts_rejects r ≡ accepts_rejects signing.decisions)
unfolding get after insert postgres persist_context bytes_beq new_task threshold_info
threshold_task_survives_example =
    threshold_task_survives 6 "contract" TaskType.sign_challenge of_both (3 ∷ [])
      (RunningTaskContext.sign_challenge of_both (3 ∷ [])) both ((8 ∷ []) ∷ []) [] is_signing
      with_pair with_signing turned_signing (reached-IsConsistent with_pair-Reached)
      (refl, (refl, tt)) (λ same. absurd (cc)) refl refl turned_signing-Reordered
