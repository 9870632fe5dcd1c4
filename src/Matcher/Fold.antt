-- ===== src/Matcher/Fold.antt =====
-- The folding of names and their tokens: fold, resolveBidiOverrides, isIgnorableForFold and tokens of
-- internal/matcherbaseline/normalize.go. The category Cf of Go's `unicode` package is a parameter.
use watchlist_platform.Base.{
  ℕ, Bool, true, false, ◌&&◌, ◌||◌, not, List, [], ◌∷◌, ◌++◌, map, any, is_empty, none, some, ◌==◌,
  if◌then◌else◌,
}
use watchlist_platform.Base.Text.{Text, fields}
use watchlist_platform.Base.Unicode.{Unicode, is_word}
use watchlist_platform.Matcher.Tokens.{join_words}
use watchlist_platform.Matcher.Vocabulary.{
  replacement, fold_map, canonicalize_token, is_corporate_suffix, is_person_honorific,
}

abbrev pub rlo : ℕ
rlo = 0x202e

abbrev pub lro : ℕ
lro = 0x202d

abbrev pub pdf : ℕ
pdf = 0x202c

abbrev pub is_override : ℕ → Bool
is_override r = r == rlo || r == lro

-- The two loops over the runes: outside an override, and inside one, where `span` holds the runes of
-- the override read so far, the last one first. The swaps of the source leave them in this order.
unfoldable mutual
  pub outside : Text → Text
  outside [] = []
  outside (r ∷ runes) =
      let kept = outside runes in
      let turned = inside [] runes in if is_override r then turned else r ∷ kept

  pub inside : Text → Text → Text
  inside span [] = span
  inside span (r ∷ runes) =
      let kept = outside runes in
      let more = inside (r ∷ span) runes in if r == pdf then span ++ kept else more

unfoldable pub resolve_bidi_overrides : Text → Text
unfolding outside
resolve_bidi_overrides value = if any is_override value then outside value else value

module _ (u : Unicode) (is_format : ℕ → Bool) where
  unfoldable pub is_ignorable_for_fold : ℕ → Bool
  is_ignorable_for_fold r = is_format r || r == b'.' || r == 0x27 || r == 0x2019

  -- The loop over the runes, with what is written before each: `last_space`, and whether the builder
  -- is empty.
  unfoldable pub fold_runes : Bool → Bool → Text → Text
  unfolding replacement is_ignorable_for_fold
  fold_runes last_space empty [] = []
  fold_runes last_space empty (r ∷ value) =
      let unchanged = fold_runes last_space empty value in
      let written = fold_runes false false value in
      let spaced = fold_runes true false value in
      elim (replacement r fold_map) [
        | some letters ↦ if is_empty letters then unchanged else letters ++ written
        | none ↦
            if is_word u r
            then r ∷ written
            else if is_ignorable_for_fold r
            then unchanged
            else if not last_space && not empty
            then b' ' ∷ spaced
            else unchanged
      ]

  unfoldable pub fold : Text → Text
  unfolding resolve_bidi_overrides fold_runes fields join_words
  fold value =
      join_words (fields (fold_runes true true (map u.to_upper (resolve_bidi_overrides value))))

-- the fields that the test does not drop
unfoldable pub filtered : (Text → Bool) → List Text → List Text
filtered drop [] = []
filtered drop (f ∷ others) = let rest = filtered drop others in if drop f then rest else f ∷ rest

-- `if len(filtered) == 0 { return fields }`
abbrev pub unless_empty : List Text → List Text → List Text
unless_empty [] all = all
unless_empty (f ∷ kept) all = f ∷ kept

unfoldable pub drop_person_honorifics : List Text → List Text
unfolding filtered is_person_honorific
drop_person_honorifics names = unless_empty (filtered is_person_honorific names) names

unfoldable pub drop_corporate_suffixes : List Text → List Text
unfolding filtered is_corporate_suffix
drop_corporate_suffixes names = unless_empty (filtered is_corporate_suffix names) names

-- The fields of an empty string are none as well.
unfoldable pub tokens : Text → List Text
unfolding fields canonicalize_token drop_person_honorifics drop_corporate_suffixes
tokens value =
    if is_empty value
    then []
    else drop_person_honorifics (drop_corporate_suffixes (map canonicalize_token (fields value)))
