-- ===== src/Tasks/Voting/Outcome.antt =====
-- When a vote is accepted, declined or still open.
use meesign_server.Base.{
  bytes_eq, ℕ, ◌+◌, ◌-◌, ◌≤◌, ◌<◌, ◌≡◌, ◌≢◌, ◌↔◌, refl, some, Bytes, arith, leb, if◌then◌else◌,
}
use meesign_server.Base.Int.{ℤ, pos_part, neg_part}
use meesign_server.Base.Map.{get}
use meesign_server.Base.Weight.{weight, weight-le}
use meesign_server.Tasks.Info.{total_shares, DecisionUpdate, accepted, declined, undecided}
use meesign_server.Tasks.Voting.{VotingTask, reject_threshold, outcome}
use meesign_server.Tasks.Voting.Tally.{
  IsTally, by_id, itself, size, votes-le-total, accepts_rejects_lem, total_shares_lem, weight-size,
}

-- The shares that accept, and those that reject.
abbrev pub accepting : VotingTask → ℕ
accepting t = weight pos_part t.decisions

abbrev pub rejecting : VotingTask → ℕ
rejecting t = weight neg_part t.decisions

-- A task is declined with these counts.
abbrev pub declined_with : VotingTask → DecisionUpdate
declined_with t =
    declined (record { task_info = t.task_info; accepts = accepting t; rejects = rejecting t })

module _ (t : VotingTask) (v : IsTally t) (positive : 0 < t.accept_threshold)
    (fits : t.accept_threshold ≤ total_shares t.task_info) where
  total-bounded : total_shares t.task_info < 4294967296
  total-bounded = omega (arith, total_shares_lem t v, v.total)

  reject_threshold_lem : reject_threshold t ≡ total_shares t.task_info - t.accept_threshold + 1
  unfolding reject_threshold
  reject_threshold_lem = omega (arith, total-bounded)

  outcome_lem : outcome t ≡ (
      if leb t.accept_threshold (accepting t)
      then accepted
      else if leb (total_shares t.task_info - t.accept_threshold + 1) (rejecting t)
      then declined_with t
      else undecided)
  unfolding outcome
  outcome_lem = rw (accepts_rejects_lem t v, reject_threshold_lem) refl

  -- For distinct participants with fewer than 2^32 shares, votes of participants that weigh no
  -- more than their shares, and a threshold between 1 and the number of shares: a vote is
  -- accepted exactly when the accepting shares reach the threshold, declined, with both counts
  -- reported, exactly when the shares that have not rejected fall below it, and open exactly when
  -- neither holds.
  pub outcome_exact :
      ((outcome t ≡ accepted) ↔ (t.accept_threshold ≤ accepting t))
      × ((outcome t ≡ declined_with t)
          ↔ (total_shares t.task_info - rejecting t < t.accept_threshold))
      × ((outcome t ≡ undecided) ↔ (
          (accepting t < t.accept_threshold)
          × (t.accept_threshold ≤ total_shares t.task_info - rejecting t)))
  outcome_exact = (
    (λ h. ground (arith, outcome_lem), λ h. ground (arith, outcome_lem)),
    (
      λ h. ground (arith, outcome_lem, votes-le-total t v),
      λ h. ground (arith, outcome_lem, votes-le-total t v),
    ),
    (λ h. ground (arith, outcome_lem), λ h. ground (arith, outcome_lem)),
  )

  -- Under the invariant of the votes and a threshold between 1 and the number of shares, a vote
  -- is not open once every participant has voted with all its shares.
  pub outcome_everyone :
      ((k : Bytes) (n : ℕ)
        → get k (by_id t.task_info.participants) ≡ some n
        → (w : ℤ) × (get k t.decisions ≡ some w) × (n ≤ size w))
      → outcome t ≢ undecided
  outcome_everyone all = λ still.
      let all_voted =
        weight-le itself size (by_id t.task_info.participants) t.decisions v.ids v.once all in
      ground
        (arith, outcome_exact.2.0 still, all_voted, weight-size t.decisions, total_shares_lem t v)
