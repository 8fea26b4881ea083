-- ===== src/Tasks/Voting.antt =====
-- `VotingTask` of tasks/mod.rs. The proofs are in the modules below.
pub mod Tally
pub mod Counts
pub mod Outcome
pub mod Decide
use meesign_server.Base.{
  bytes_eq, ℕ, zero, suc, ◌+◌, ◌-◌, Bool, true, false, Option, some, List, [], ◌∷◌, Bytes, find,
  leb, bytes_beq, if◌then◌else◌,
}
use meesign_server.Base.Exec.{
  Exec, or_raise, general_protocol_error, ◌>>=◌, ◌>>◌, lift, gets, modify,
}
use meesign_server.Base.Int.{ℤ, pos, negsuc, u32, as_i8, neg_i8}
use meesign_server.Base.Map.{Map, get, insert, values}
use meesign_server.Persistence.Models.{Participant}
use meesign_server.Tasks.Info.{
  TaskInfo, total_shares, DecisionUpdate, undecided, accepted, declined, RunningTaskContext,
}

pub record VotingTask : Type 0 where
  pub task_info : TaskInfo
  pub decisions : Map Bytes ℤ
  pub accept_threshold : ℕ
  pub running_task_context : RunningTaskContext

-- One round of the loop of `accepts_rejects`.
unfoldable pub count_vote : ℤ → ℕ × ℕ → ℕ × ℕ
count_vote (pos zero) (accepts, rejects) = (accepts, rejects)
count_vote (pos (suc n)) (accepts, rejects) = (u32 (accepts + suc n), rejects)
count_vote (negsuc n) (accepts, rejects) = (accepts, u32 (rejects + suc n))

unfoldable pub count_votes : List ℤ → ℕ × ℕ → ℕ × ℕ
unfolding count_vote
count_votes [] counts = counts
count_votes (vote ∷ votes) counts = count_votes votes (count_vote vote counts)

-- `VotingTask::accepts_rejects`
unfoldable pub accepts_rejects : Map Bytes ℤ → ℕ × ℕ
unfolding count_votes
accepts_rejects decisions = count_votes (values decisions) (0, 0)

-- `VotingTask::reject_threshold`
unfoldable pub reject_threshold : VotingTask → ℕ
reject_threshold t = u32 (u32 (total_shares t.task_info + 4294967296 - t.accept_threshold) + 1)

-- `VotingTask::device_accepted`: `None` is below every vote.
unfoldable pub is_positive : Option ℤ → Bool
is_positive (some (pos (suc n))) = true
is_positive _ = false

unfoldable pub device_accepted : VotingTask → Bytes → Bool
unfolding is_positive
device_accepted t device_id = is_positive (get device_id t.decisions)

-- The shares of the first participant with the identifier.
unfoldable pub participant_of : TaskInfo → Bytes → Option Participant
participant_of info device_id = find (λ p. bytes_beq p.device.id device_id) info.participants

-- The vote that a participant's decision adds.
unfoldable pub vote_of : Participant → Bool → ℤ
unfolding as_i8 neg_i8
vote_of p accept = if accept then as_i8 p.shares else neg_i8 (as_i8 p.shares)

-- The update that the votes amount to.
unfoldable pub outcome : VotingTask → DecisionUpdate
unfolding accepts_rejects reject_threshold
outcome t =
    let (accepts, rejects) = accepts_rejects t.decisions in
    if leb t.accept_threshold accepts
    then accepted
    else if leb (reject_threshold t) rejects
    then declined (record { task_info = t.task_info; accepts = accepts; rejects = rejects })
    else undecided

-- `VotingTask::decide`
unfoldable pub decide : Bytes → Bool → Exec VotingTask DecisionUpdate
unfolding participant_of vote_of
decide device_id accept = do
  info ← gets (λ t. t.task_info)
  p ← lift (
      or_raise (general_protocol_error "Invalid task participant id")
        (participant_of info device_id))
  modify (λ t. record t { decisions = insert device_id (vote_of p accept) t.decisions })
  gets outcome
