-- ===== src/Tasks/Voting/Decide.antt =====
-- What `decide` does with a device's decision.
use meesign_server.Base.{
  find, subst, Option-cases, ◌⊎◌, ℕ, zero, suc, ◌-◌, ◌<◌, ◌≡◌, refl, Bool, true, false, none, some,
  List, [], ◌∷◌, Bytes, arith, bytes_eq, bytes_beq, bytes_beq_iff, Bool-cases, inl, inr,
}
use meesign_server.Base.Exec.{ok, err, general_protocol_error}
use meesign_server.Base.Int.{ℤ, pos, negsuc, as_i8, neg_i8}
use meesign_server.Base.Map.{get, insert, get-insert, insert-IsMap}
use meesign_server.Persistence.Models.{Participant}
use meesign_server.Tasks.Info.{TaskInfo}
use meesign_server.Tasks.Voting.{
  VotingTask, participant_of, vote_of, outcome, decide, device_accepted,
}
use meesign_server.Tasks.Voting.Tally.{IsTally, by_id, size}

-- The task with the decision entered.
abbrev pub voted : VotingTask → Bytes → ℤ → VotingTask
voted t id v = record t { decisions = insert id v t.decisions }

-- The vote of a participant with all its shares.
abbrev pub full_vote : ℕ → Bool → ℤ
full_vote n true = pos n
full_vote n false = elim n [ zero ↦ pos zero | suc m ↦ negsuc m ]

vote_of_small :
    (p : Participant) (accept : Bool)
    → p.shares < 128
    → vote_of p accept ≡ full_vote p.shares accept
unfolding vote_of as_i8 neg_i8
vote_of_small p true h = ground arith
vote_of_small p false h = ground arith

size-full_vote : (n : ℕ) (accept : Bool) → size (full_vote n accept) ≡ n
size-full_vote n true = omega arith
size-full_vote zero false = omega arith
size-full_vote (suc m) false = omega arith

find-by_id :
    (id : Bytes) (ps : List Participant) (p : Participant)
    → find (λ q. bytes_beq q.device.id id) ps ≡ some p
    → get id (by_id ps) ≡ some p.shares
unfolding get
find-by_id id [] p h = cc
find-by_id id (q ∷ ps) p h = ground (arith, find-by_id id ps p)

get-by_id :
    (info : TaskInfo) (id : Bytes) (p : Participant)
    → participant_of info id ≡ some p
    → get id (by_id info.participants) ≡ some p.shares
unfolding participant_of
get-by_id info id p h = find-by_id id info.participants p h

voted-IsTally :
    (t : VotingTask) (id : Bytes) (n : ℕ) (accept : Bool)
    → IsTally t
    → get id (by_id t.task_info.participants) ≡ some n
    → IsTally (voted t id (full_vote n accept))
voted-IsTally t id n accept v member = record {
  ids = v.ids;
  total = v.total;
  once = insert-IsMap id (full_vote n accept) t.decisions v.once;
  votes = λ k w found. elim (Bool-cases (bytes_beq id k)) [
    | inl same ↦ (
      n,
      subst (λ j. get j (by_id t.task_info.participants) ≡ some n) ((bytes_beq_iff id k).0 same)
          member,
      ground (arith, get-insert id k (full_vote n accept) t.decisions, size-full_vote n accept),
    )
    | inr other ↦ v.votes k w (ground (arith, get-insert id k (full_vote n accept) t.decisions))
  ];
}

-- What `decide` leaves for a device, whether or not it is a participant.
abbrev pub DecideSpec : VotingTask → Bytes → Bool → Type 0
DecideSpec t id accept =
    ((participant_of t.task_info id ≡ none)
      × (decide id accept t ≡ (err (general_protocol_error "Invalid task participant id"), t)))
    ⊎ ((p : Participant) × (participant_of t.task_info id ≡ some p)
        × (decide id accept t ≡ (
          ok (outcome (voted t id (full_vote p.shares accept))),
          voted t id (full_vote p.shares accept),
        ))
        × IsTally (voted t id (full_vote p.shares accept)))

decide_known :
    (t : VotingTask) (id : Bytes) (accept : Bool) (p : Participant)
    → participant_of t.task_info id ≡ some p
    → decide id accept t
      ≡ (ok (outcome (voted t id (vote_of p accept))), voted t id (vote_of p accept))
unfolding decide
decide_known t id accept p found = rw found refl

-- Under the invariant of the votes, and where the device has fewer than 128 shares if it is a
-- participant: a device that is no participant changes nothing and is refused, and a
-- participant's decision replaces its earlier one by a vote with all its shares; the update is
-- that of the new votes, and the invariant is kept.
pub decide_exact :
    (t : VotingTask) (id : Bytes) (accept : Bool)
    → IsTally t
    → ((p : Participant) → participant_of t.task_info id ≡ some p → p.shares < 128)
    → DecideSpec t id accept
unfolding decide
decide_exact t id accept v small = elim (Option-cases (participant_of t.task_info id)) [
  | inl unknown ↦ inl (unknown, rw unknown refl)
  | inr (p, found) ↦ inr (
    p,
    found,
    rw found (rw (vote_of_small p accept (small p found)) refl),
    voted-IsTally t id p.shares accept v (get-by_id t.task_info id p found),
  )
]

-- A participant with 128 to 255 shares that accepts is counted as one that rejects: its vote
-- weighs 256 minus its shares against the task, and the server takes it for not accepting.
pub decide_miscounts :
    (t : VotingTask) (id : Bytes) (p : Participant)
    → participant_of t.task_info id ≡ some p
    → 127 < p.shares
    → p.shares < 256
    → ((decide id true t).1 ≡ voted t id (negsuc (255 - p.shares)))
      × (device_accepted (decide id true t).1 id ≡ false)
unfolding device_accepted vote_of as_i8
decide_miscounts t id p found low high =
    let vote : vote_of p true ≡ negsuc (255 - p.shares) = ground arith in
    let state : (decide id true t).1 ≡ voted t id (negsuc (255 - p.shares)) =
      rw (decide_known t id true p found, vote) refl in
    (
      state,
      rw
          (
            state,
            get-insert id id (negsuc (255 - p.shares)) t.decisions,
            (bytes_beq_iff id id).1 refl,
          )
          refl,
    )
