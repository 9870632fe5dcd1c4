-- ===== src/Scoring/Order.antt =====
-- The order of sort.SliceStable in Score: a total order of the results, in which two results tie only
-- if their candidate ids are equal.
use watchlist_platform.Base.{◌≡◌, true, false, arith}
use watchlist_platform.Base.Text.{lt_text_asymm, lt_text_trans, lt_text_connex}
use watchlist_platform.Base.Sort.{IsOrder, Apart}
use watchlist_platform.Scoring.Types.{CandidateResult}
use watchlist_platform.Scoring.Engine.{less_result}

less_result_asymm : (a b : CandidateResult) → less_result a b ≡ true → less_result b a ≡ false
unfolding less_result
less_result_asymm a b h = ground (arith, lt_text_asymm a.candidate_id b.candidate_id)

less_result_trans :
    (a b c : CandidateResult)
    → less_result b a ≡ false
    → less_result c b ≡ false
    → less_result c a ≡ false
unfolding less_result
less_result_trans a b c h k = ground (
  arith,
  lt_text_trans c.candidate_id a.candidate_id b.candidate_id,
  lt_text_connex a.candidate_id b.candidate_id,
)

pub less_result-IsOrder : IsOrder less_result
less_result-IsOrder = record { asymm = less_result_asymm; trans = less_result_trans }

pub Apart-of_ids :
    (a b : CandidateResult) → ¬ (a.candidate_id ≡ b.candidate_id) → Apart less_result a b
unfolding less_result
Apart-of_ids a b h = ground (arith, lt_text_connex a.candidate_id b.candidate_id)
