-- ===== src/Tasks/Voting/Counts.antt =====
-- The counts of `accepts_rejects` of tasks/mod.rs, for votes in any order.
use meesign_server.Base.{
  ℕ, zero, suc, ◌+◌, ◌<◌, ◌≡◌, refl, sym, ◌∙◌, Option, none, some, [], ◌∷◌, Bytes, arith, bytes_eq,
  nat_eq, pair_eq,
}
use meesign_server.Base.Int.{ℤ, pos, negsuc, pos_part, neg_part, u32}
use meesign_server.Base.Map.{Map, get, IsMap, values}
use meesign_server.Base.Weight.{weight, weight_of, weight_congr}
use meesign_server.Tasks.Voting.{count_vote, count_votes, accepts_rejects}

-- A device that has not voted counts as 0.
abbrev pub or_zero_vote : Option ℤ → ℤ
or_zero_vote none = pos 0
or_zero_vote (some v) = v

count_votes-u32 :
    (votes : Map Bytes ℤ) (a r : ℕ)
    → a < 4294967296
    → r < 4294967296
    → count_votes (values votes) (a, r)
      ≡ (u32 (a + weight pos_part votes), u32 (r + weight neg_part votes))
unfolding count_votes count_vote
count_votes-u32 [] a r ha hr = ground arith
count_votes-u32 ((k, pos zero) ∷ votes) a r ha hr = ground (arith, count_votes-u32 votes a r)
count_votes-u32 ((k, pos (suc n)) ∷ votes) a r ha hr =
    ground (arith, count_votes-u32 votes (u32 (a + suc n)) r)
count_votes-u32 ((k, negsuc n) ∷ votes) a r ha hr =
    ground (arith, count_votes-u32 votes a (u32 (r + suc n)))

-- Votes that agree device by device are counted alike.
pub counts_agree :
    (m n : Map Bytes ℤ)
    → IsMap m
    → IsMap n
    → ((d : Bytes) → or_zero_vote (get d m) ≡ or_zero_vote (get d n))
    → accepts_rejects m ≡ accepts_rejects n
unfolding accepts_rejects
counts_agree m n hm hn same =
    count_votes-u32 m 0 0 (omega arith) (omega arith)
    ∙ rw
        (
          weight_congr pos_part m n hm hn (λ d. weighs pos_part refl d),
          weight_congr neg_part m n hm hn (λ d. weighs neg_part refl d),
        )
        (sym (count_votes-u32 n 0 0 (omega arith) (omega arith)))
  where
    weighs :
        (f : ℤ → ℕ) → f (pos 0) ≡ 0 → (d : Bytes) → weight_of f (get d m) ≡ weight_of f (get d n)
    weighs f light d = ground (arith, same d)
