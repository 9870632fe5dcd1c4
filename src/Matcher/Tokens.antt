-- ===== src/Matcher/Tokens.antt =====
-- The similarities of token lists in internal/matcherbaseline/similarity.go.
use watchlist_platform.Base.{
  ℕ, ◌+◌, ◌*◌, ◌/◌, Bool, ◌&&◌, List, [], ◌∷◌, ◌++◌, length, ltb, leb, ◌==◌, if◌then◌else◌,
}
use watchlist_platform.Base.Text.{Text, lt_text}
use watchlist_platform.Base.Sort.{sort}
use watchlist_platform.Matcher.Table.{table}
use watchlist_platform.Matcher.Edit.{longer, edit_similarity}

-- the loop over the targets
unfoldable pub best_token : Text → ℕ → List Text → ℕ
unfolding edit_similarity
best_token s best [] = best
best_token s best (t ∷ target) =
    let v = edit_similarity s t in best_token s (if ltb best v then v else best) target

-- the loop over the sources
unfoldable pub token_total : ℕ → List Text → List Text → ℕ
unfolding best_token
token_total total [] target = total
token_total total (s ∷ source) target = token_total (total + best_token s 0 target) source target

-- Its callers pass a list that is not empty.
unfoldable pub directed_token_score : List Text → List Text → ℕ
unfolding token_total
directed_token_score source target = token_total 0 source target / length source

unfoldable pub token_alignment_similarity : List Text → List Text → ℕ
unfolding directed_token_score
token_alignment_similarity [] [] = 10000
token_alignment_similarity [] (t ∷ right) = 0
token_alignment_similarity (t ∷ left) [] = 0
token_alignment_similarity (l ∷ left) (r ∷ right) =
    (directed_token_score (l ∷ left) (r ∷ right) + directed_token_score (r ∷ right) (l ∷ left)) / 2

unfoldable pub alike : Text → Text → Bool
unfolding edit_similarity
alike l r = leb 7000 (edit_similarity l r)

-- `matrix[i][j]` from the cells to the left, above and diagonally above
unfoldable pub ordered_cell : Text → Text → ℕ → ℕ → ℕ → ℕ
unfolding alike
ordered_cell l r left above diagonal =
    if alike l r then diagonal + 1 else if ltb left above then above else left

unfoldable pub ordered_matches : List Text → List Text → ℕ
unfolding table ordered_cell
ordered_matches left right = table (λ i. 0) ordered_cell left right

unfoldable pub ordered_token_similarity : List Text → List Text → ℕ
unfolding ordered_matches
ordered_token_similarity left right =
    let m = longer (length left) (length right) in
    if m == 0 then 10000 else ordered_matches left right * 10000 / m

-- strings.Join(tokens, " ")
unfoldable pub join_words : List Text → Text
join_words [] = []
join_words (t ∷ []) = t
join_words (t ∷ next ∷ tokens) = t ++ b' ' ∷ join_words (next ∷ tokens)

unfoldable pub sorted_join : List Text → Text
unfolding sort lt_text join_words
sorted_join tokens = join_words (sort lt_text tokens)

unfoldable pub best_edit_similarity : Text → Text → List Text → List Text → ℕ
unfolding edit_similarity sorted_join
best_edit_similarity query candidate qt ct =
    let raw = edit_similarity query candidate in
    let sorted_raw = edit_similarity (sorted_join qt) (sorted_join ct) in
    if ltb (length qt) 2 && ltb (length ct) 2
    then raw
    else if ltb raw sorted_raw
    then sorted_raw
    else raw
