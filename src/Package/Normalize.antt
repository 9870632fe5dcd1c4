-- ===== src/Package/Normalize.antt =====
-- The normalisation of names and identifiers in internal/mmapcatalogcontract/format.go. A string is
-- the list of its code points; the parsed input holds valid UTF-8 only.
use watchlist_platform.Base.{
  ℕ, ◌+◌, ◌-◌, Bool, true, false, ◌&&◌, ◌||◌, not, [], ◌∷◌, ltb, leb, if◌then◌else◌,
}
use watchlist_platform.Base.Text.{Text, trim_space}

abbrev pub is_alpha : ℕ → Bool
is_alpha c = (leb b'A' c && leb c b'Z') || (leb b'a' c && leb c b'z')

abbrev pub is_digit : ℕ → Bool
is_digit c = leb b'0' c && leb c b'9'

unfoldable pub with_case : Bool → ℕ → ℕ
with_case upper c =
    if upper && (leb b'a' c && leb c b'z')
    then c - 32
    else if not upper && (leb b'A' c && leb c b'Z')
    then c + 32
    else c

-- The loop over the runes: `pending` is pendingSep, and `written` tells that the builder is not empty.
unfoldable pub normalize_runes : Bool → Bool → Bool → Bool → Text → Text
unfolding with_case
normalize_runes upper spaces pending written [] = []
normalize_runes upper spaces pending written (r ∷ value) =
    let after = normalize_runes upper spaces false true value in
    let wait = normalize_runes upper spaces true written value in
    let skip = normalize_runes upper spaces pending written value in
    let separated =
      λ (c : ℕ). if pending && (written && spaces) then b' ' ∷ c ∷ after else c ∷ after in
    if ltb 127 r
    then separated r
    else if is_alpha r || is_digit r
    then separated (with_case upper r)
    else if spaces
    then wait
    else skip

unfoldable pub normalize_ascii : Text → Bool → Bool → Text
unfolding normalize_runes trim_space
normalize_ascii value upper spaces = trim_space (normalize_runes upper spaces false false value)

unfoldable pub normalize_name : Text → Text
unfolding normalize_ascii
normalize_name value = normalize_ascii value false true

unfoldable pub normalize_identifier : Text → Text
unfolding normalize_ascii
normalize_identifier value = normalize_ascii value true false

unfoldable pub normalize_type : Text → Text
unfolding normalize_ascii
normalize_type value = normalize_ascii value false false
