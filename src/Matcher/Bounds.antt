-- ===== src/Matcher/Bounds.antt =====
-- The bounds of the similarities of internal/matcherbaseline/similarity.go.
use native.Mathlib.Nat.{div-le_of_le-mul}
use watchlist_platform.Base.{ℕ, ◌+◌, ◌*◌, ◌≤◌, List, [], ◌∷◌, length, ltb, if◌then◌else◌, arith}
use watchlist_platform.Base.Text.{Text}
use watchlist_platform.Matcher.Edit.{longer, distance, edit_similarity, length_similarity}
use watchlist_platform.Matcher.Similarity.{similarity_le, edit_similarity-faithful}
use watchlist_platform.Matcher.Tokens.{
  best_token, token_total, directed_token_score, token_alignment_similarity, best_edit_similarity,
  sorted_join,
}

pub length_similarity_le : (a b : Text) → length_similarity a b ≤ 10000
unfolding length_similarity
length_similarity_le a b =
    similarity_le (longer (length a) (length b)) (distance (length a) (length b))

best_token_le :
    (s : Text) (best : ℕ) (target : List Text) → best ≤ 10000 → best_token s best target ≤ 10000
unfolding best_token
best_token_le s best [] h = h
best_token_le s best (t ∷ target) h =
    best_token_le s (if ltb best (edit_similarity s t) then edit_similarity s t else best) target
      (ground (arith, h, (edit_similarity-faithful s t).0))

token_total_le :
    (total : ℕ) (source target : List Text)
    → token_total total source target ≤ total + length source * 10000
unfolding token_total
token_total_le total [] target = omega arith
token_total_le total (s ∷ source) target = omega (
  arith,
  token_total_le (total + best_token s 0 target) source target,
  best_token_le s 0 target (omega arith),
)

directed_token_score_le : (source target : List Text) → directed_token_score source target ≤ 10000
unfolding directed_token_score
directed_token_score_le source target =
    div-le_of_le-mul (length source) {n = 10000} (omega (arith, token_total_le 0 source target))

pub token_alignment_similarity_le : (ls rs : List Text) → token_alignment_similarity ls rs ≤ 10000
unfolding token_alignment_similarity
token_alignment_similarity_le [] [] = omega arith
token_alignment_similarity_le [] (r ∷ rs) = omega arith
token_alignment_similarity_le (l ∷ ls) [] = omega arith
token_alignment_similarity_le (l ∷ ls) (r ∷ rs) =
    omega
      (arith, directed_token_score_le (l ∷ ls) (r ∷ rs), directed_token_score_le (r ∷ rs) (l ∷ ls))

pub best_edit_similarity_le :
    (q c : Text) (qt ct : List Text) → best_edit_similarity q c qt ct ≤ 10000
unfolding best_edit_similarity
best_edit_similarity_le q c qt ct = ground (
  arith,
  (edit_similarity-faithful q c).0,
  (edit_similarity-faithful (sorted_join qt) (sorted_join ct)).0,
)
