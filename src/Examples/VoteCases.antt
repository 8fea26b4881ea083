-- ===== src/Examples/VoteCases.antt =====
-- Instances of the theorems on votes.
use meesign_server.Base.{
  bytes_eq, ℕ, ◌-◌, ◌≤◌, ◌<◌, ◌≡◌, ◌≢◌, ◌↔◌, refl, bytes_beq, Bool-cases, inl, inr, true, false,
  some, [], ◌∷◌, Bytes, arith,
}
use meesign_server.Base.Int.{ℤ, pos, negsuc}
use meesign_server.Base.Map.{get}
use meesign_server.Examples.{ballot, alice, request, members}
use meesign_server.Persistence.Models.{Participant}
use meesign_server.Tasks.Info.{total_shares, accepted, undecided}
use meesign_server.Tasks.Voting.{VotingTask, outcome, decide, device_accepted, participant_of}
use meesign_server.Tasks.Voting.Decide.{DecideSpec, voted, decide_exact, decide_miscounts}
use meesign_server.Tasks.Voting.Outcome.{
  accepting, rejecting, declined_with, outcome_exact, outcome_everyone,
}
use meesign_server.Tasks.Voting.Tally.{IsTally, by_id, size}

ballot-IsTally : IsTally ballot
unfolding get bytes_beq
ballot-IsTally = record {
  ids = (refl, (refl, tt));
  total = omega arith;
  once = (refl, tt);
  votes = λ k w h. elim (Bool-cases (bytes_beq (1 ∷ []) k)) [
    | inl same ↦ (2, ground arith, ground arith)
    | inr other ↦ absurd (cc)
  ];
}

outcome_exact_example :
    ((outcome ballot ≡ accepted) ↔ (2 ≤ accepting ballot))
    × ((outcome ballot ≡ declined_with ballot) ↔ (total_shares request - rejecting ballot < 2))
    × ((outcome ballot ≡ undecided)
        ↔ ((accepting ballot < 2) × (2 ≤ total_shares request - rejecting ballot)))
outcome_exact_example =
    outcome_exact ballot ballot-IsTally (omega arith) (unfold total_shares in omega arith)

-- Alice has accepted with both her shares, and Bob has rejected with his.
abbrev full_ballot : VotingTask
full_ballot = record ballot { decisions = (1 ∷ [], pos 2) ∷ (2 ∷ [], negsuc 0) ∷ [] }

full_ballot-IsTally : IsTally full_ballot
unfolding get bytes_beq
full_ballot-IsTally = record {
  ids = (refl, (refl, tt));
  total = omega arith;
  once = (refl, (refl, tt));
  votes = λ k w h. elim (Bool-cases (bytes_beq (1 ∷ []) k)) [
    | inl same ↦ (2, ground arith, ground arith)
    | inr other ↦ elim (Bool-cases (bytes_beq (2 ∷ []) k)) [
      | inl bobs ↦ (1, ground arith, ground arith)
      | inr nobody ↦ absurd (ground arith)
    ]
  ];
}

everyone_voted :
    (k : Bytes) (n : ℕ)
    → get k (by_id members) ≡ some n
    → (w : ℤ) × (get k full_ballot.decisions ≡ some w) × (n ≤ size w)
unfolding get bytes_beq
everyone_voted k n h = elim (Bool-cases (bytes_beq (1 ∷ []) k)) [
  | inl same ↦ (pos 2, ground arith, ground arith)
  | inr other ↦ elim (Bool-cases (bytes_beq (2 ∷ []) k)) [
    | inl bobs ↦ (negsuc 0, ground arith, ground arith)
    | inr nobody ↦ absurd (ground arith)
  ]
]

outcome_everyone_example : outcome full_ballot ≢ undecided
outcome_everyone_example =
    outcome_everyone full_ballot full_ballot-IsTally (omega arith)
      (unfold total_shares in omega arith) everyone_voted

small_shares : (p : Participant) → participant_of request (2 ∷ []) ≡ some p → p.shares < 128
unfolding participant_of bytes_beq
small_shares p h = ground arith

decide_exact_example : DecideSpec ballot (2 ∷ []) false
decide_exact_example = decide_exact ballot (2 ∷ []) false ballot-IsTally small_shares

-- A single device with 200 shares.
abbrev heavy : Participant
heavy = record { device = alice; shares = 200 }

abbrev heavy_ballot : VotingTask
heavy_ballot = record ballot {
  task_info = record request { participants = heavy ∷ [] };
  decisions = [];
}

heavy_member : participant_of heavy_ballot.task_info (1 ∷ []) ≡ some heavy
unfolding participant_of bytes_beq
heavy_member = refl

decide_miscounts_example :
    ((decide (1 ∷ []) true heavy_ballot).1 ≡ voted heavy_ballot (1 ∷ []) (negsuc 55))
    × (device_accepted (decide (1 ∷ []) true heavy_ballot).1 (1 ∷ []) ≡ false)
decide_miscounts_example =
    decide_miscounts heavy_ballot (1 ∷ []) heavy heavy_member (omega arith) (omega arith)
