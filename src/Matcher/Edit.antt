-- ===== src/Matcher/Edit.antt =====
-- The edit distance and the similarities by length of internal/matcherbaseline/similarity.go.
use watchlist_platform.Base.{ℕ, ◌+◌, ◌-◌, ◌*◌, ◌/◌, length, ltb, ◌==◌, if◌then◌else◌}
use watchlist_platform.Base.Text.{Text}
use watchlist_platform.Matcher.Table.{table}

unfoldable pub min3 : ℕ → ℕ → ℕ → ℕ
min3 a b c = if ltb a b then (if ltb a c then a else c) else (if ltb b c then b else c)

-- `cost`
unfoldable pub cost : ℕ → ℕ → ℕ
cost x y = if x == y then 0 else 1

-- `min3(cur[j]+1, prev[j+1]+1, prev[j]+cost)`
unfoldable pub edit_cell : ℕ → ℕ → ℕ → ℕ → ℕ → ℕ
unfolding min3 cost
edit_cell x y left above diagonal = min3 (left + 1) (above + 1) (diagonal + cost x y)

-- The first row is `prev[i] = i`, and a row starts with `cur[0] = i + 1` for the rune at index `i`.
unfoldable pub levenshtein : Text → Text → ℕ
unfolding table edit_cell
levenshtein left right = table (λ i. i) edit_cell left right

abbrev pub longer : ℕ → ℕ → ℕ
longer a b = if ltb a b then b else a

-- `(m - d) * 10000 / m`, where `m == 0` returns 10000; `d` is at most `m`
unfoldable pub similarity : ℕ → ℕ → ℕ
similarity m d = if m == 0 then 10000 else (m - d) * 10000 / m

unfoldable pub edit_similarity : Text → Text → ℕ
unfolding levenshtein similarity
edit_similarity left right =
    similarity (longer (length left) (length right)) (levenshtein left right)

abbrev pub distance : ℕ → ℕ → ℕ
distance a b = if ltb a b then b - a else a - b

unfoldable pub length_similarity : Text → Text → ℕ
unfolding similarity
length_similarity left right =
    similarity (longer (length left) (length right)) (distance (length left) (length right))
