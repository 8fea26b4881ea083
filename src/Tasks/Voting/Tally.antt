-- ===== src/Tasks/Voting/Tally.antt =====
-- The invariant of the votes of a task, and what the counts of `accepts_rejects` are under it.
use meesign_server.Base.{
  ℕ, zero, suc, ◌+◌, ◌≤◌, ◌<◌, ◌≡◌, refl, List, [], ◌∷◌, Bytes, arith, sum, bytes_eq,
}
use meesign_server.Base.Int.{ℤ, pos, negsuc, pos_part, neg_part, u32}
use meesign_server.Base.Map.{Map, IsMap, values}
use meesign_server.Base.Weight.{weight, weight-le, Outweighs}
use meesign_server.Persistence.Models.{Participant}
use meesign_server.Tasks.Info.{total_shares, all_shares}
use meesign_server.Tasks.Voting.{VotingTask, count_vote, count_votes, accepts_rejects}

-- The shares of the participants by identifier.
abbrev pub by_id : List Participant → Map Bytes ℕ
by_id [] = []
by_id (p ∷ ps) = (p.device.id, p.shares) ∷ by_id ps

abbrev pub itself : ℕ → ℕ
itself n = n

abbrev pub size : ℤ → ℕ
size v = pos_part v + neg_part v

-- Participants are distinct and hold fewer than 2 ^ 32 shares, and each vote is that of a
-- participant and weighs no more than its shares.
pub record IsTally (t : VotingTask) : Type 0 where
  pub ids : IsMap (by_id t.task_info.participants)
  pub total : weight itself (by_id t.task_info.participants) < 4294967296
  pub once : IsMap t.decisions
  pub votes : Outweighs size itself t.decisions (by_id t.task_info.participants)

count_votes_lem :
    (votes : Map Bytes ℤ) (a r : ℕ)
    → a + weight pos_part votes < 4294967296
    → r + weight neg_part votes < 4294967296
    → count_votes (values votes) (a, r) ≡ (a + weight pos_part votes, r + weight neg_part votes)
unfolding count_votes count_vote
count_votes_lem [] a r ha hr = ground arith
count_votes_lem ((k, pos zero) ∷ votes) a r ha hr = ground (arith, count_votes_lem votes a r)
count_votes_lem ((k, pos (suc n)) ∷ votes) a r ha hr =
    ground (arith, count_votes_lem votes (u32 (a + suc n)) r)
count_votes_lem ((k, negsuc n) ∷ votes) a r ha hr =
    ground (arith, count_votes_lem votes a (u32 (r + suc n)))

pub weight-size :
    (votes : Map Bytes ℤ) → weight size votes ≡ weight pos_part votes + weight neg_part votes
weight-size [] = refl
weight-size ((k, v) ∷ votes) = omega (arith, weight-size votes)

sum-by_id : (ps : List Participant) → sum (all_shares ps) ≡ weight itself (by_id ps)
unfolding sum
sum-by_id [] = refl
sum-by_id (p ∷ ps) = omega (arith, sum-by_id ps)

module _ (t : VotingTask) (v : IsTally t) where
  pub total_shares_lem : total_shares t.task_info ≡ weight itself (by_id t.task_info.participants)
  unfolding total_shares
  total_shares_lem = omega (arith, sum-by_id t.task_info.participants, v.total)

  pub votes-le-total :
      weight pos_part t.decisions + weight neg_part t.decisions ≤ total_shares t.task_info
  votes-le-total = omega (
    arith,
    total_shares_lem,
    weight-size t.decisions,
    weight-le size itself t.decisions (by_id t.task_info.participants) v.once v.ids v.votes,
  )

  -- The counts are the sums of the accepting and of the rejecting votes.
  pub accepts_rejects_lem :
      accepts_rejects t.decisions ≡ (weight pos_part t.decisions, weight neg_part t.decisions)
  unfolding accepts_rejects
  accepts_rejects_lem =
      ground (arith, count_votes_lem t.decisions 0 0, votes-le-total, total_shares_lem, v.total)
