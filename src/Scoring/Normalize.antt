-- ===== src/Scoring/Normalize.antt =====
-- internal/candidatescoring/normalize.go, and normalizeDate and normalizeReasonCode of engine.go.
use watchlist_platform.Base.{
  ℕ, Bool, true, false, ◌&&◌, ◌||◌, not, List, [], ◌∷◌, ◌++◌, map, length, is_empty, leb, ◌==◌,
  if◌then◌else◌,
}
use watchlist_platform.Base.Text.{
  Text, text, eq_text, trim_space, trim_left, trim_right, replace_char, remove_char, fields, utf8,
}
use watchlist_platform.Base.Sets.{member, unique_sorted}
use watchlist_platform.Base.Unicode.{Unicode, is_word}

-- what one rune writes
written : Bool → Bool → ℕ → Text
written true last r = r ∷ []
written false true r = []
written false false r = 32 ∷ []

-- the loop of normalizeText; `last` is lastSpace
unfoldable pub text_loop : Unicode → Bool → Text → Text
unfolding written
text_loop u last [] = []
text_loop u last (r ∷ s) = written (is_word u r) last r ++ text_loop u (not (is_word u r)) s

unfoldable pub normalize_text : Unicode → Text → Text
unfolding text_loop trim_space
normalize_text u value = trim_space (text_loop u true (map u.to_upper (trim_space value)))

unfoldable pub normalize_identifier_type : Unicode → Text → Text
unfolding normalize_text replace_char
normalize_identifier_type u value = replace_char 32 b'_' (normalize_text u value)

unfoldable pub normalize_identifier_value : Unicode → Text → Text
unfolding normalize_text remove_char
normalize_identifier_value u value = remove_char 32 (normalize_text u value)

unfoldable pub normalize_country : Unicode → Text → Text
unfolding normalize_text remove_char
normalize_country u value = remove_char 32 (normalize_text u value)

abbrev entity_class : Text → Text
entity_class v =
    if member v (text "PERSON" ∷ text "INDIVIDUAL" ∷ text "NATURAL PERSON" ∷ [])
    then text "PERSON"
    else if member v (
        text "ORGANIZATION"
        ∷ text "ORGANISATION"
        ∷ text "ENTITY"
        ∷ text "COMPANY"
        ∷ text "BUSINESS"
        ∷ [])
    then text "ORGANIZATION"
    else if member v (text "VESSEL" ∷ text "SHIP" ∷ [])
    then text "VESSEL"
    else if member v (text "AIRCRAFT" ∷ text "PLANE" ∷ [])
    then text "AIRCRAFT"
    else v

unfoldable pub normalize_entity_type : Unicode → Text → Text
unfolding normalize_text member
normalize_entity_type u value = entity_class (normalize_text u value)

-- the map of tokens, sorted; strings.Fields yields no empty token
unfoldable pub token_set : Unicode → Text → List Text
unfolding normalize_text fields unique_sorted
token_set u value = unique_sorted (λ t. t) (fields (normalize_text u value))

-- the loop that compares two token slices of one length
unfoldable pub same_tokens : List Text → List Text → Bool
unfolding eq_text
same_tokens [] [] = true
same_tokens [] (y ∷ ys) = false
same_tokens (x ∷ xs) [] = false
same_tokens (x ∷ xs) (y ∷ ys) = eq_text x y && same_tokens xs ys

unfoldable pub equal_token_set : Unicode → Text → Text → Bool
unfolding token_set same_tokens
equal_token_set u a b =
    let ta = token_set u a in not (is_empty ta) && same_tokens ta (token_set u b)

unfoldable pub equal_spaces_stripped : Text → Text → Bool
unfolding eq_text remove_char
equal_spaces_stripped a b = eq_text (remove_char 32 a) (remove_char 32 b)

abbrev pub particle_tokens : List Text
particle_tokens =
    text "AL"
    ∷ text "BIN"
    ∷ text "VAN"
    ∷ text "DER"
    ∷ text "DE"
    ∷ text "DA"
    ∷ text "DEL"
    ∷ text "DOS"
    ∷ text "DAS"
    ∷ text "LA"
    ∷ text "LE"
    ∷ text "VON"
    ∷ text "IBN"
    ∷ []

unfoldable pub strip_particle_tokens : List Text → List Text
unfolding member
strip_particle_tokens [] = []
strip_particle_tokens (token ∷ tokens) =
    let out = strip_particle_tokens tokens in
    if member token particle_tokens then out else token ∷ out

unfoldable pub equal_particle_stripped_token_set : Unicode → Text → Text → Bool
unfolding token_set same_tokens strip_particle_tokens
equal_particle_stripped_token_set u a b =
    let ta = strip_particle_tokens (token_set u a) in
    not (is_empty ta) && same_tokens ta (strip_particle_tokens (token_set u b))

-- `len` counts bytes
unfoldable pub normalize_date : Text → Text
unfolding trim_space utf8
normalize_date value = let v = trim_space value in if leb 4 (length (utf8 v)) then v else []

abbrev is_code : ℕ → Bool
is_code r = (leb b'a' r && leb r b'z') || (leb b'0' r && leb r b'9')

-- the loop of normalizeReasonCode; `last` is lastUnderscore, `started` is b.Len() > 0
unfoldable pub reason_loop : Bool → Bool → Text → Text
reason_loop last started [] = []
reason_loop last started (r ∷ s) =
    let cut = not last && started in
    (if is_code r then r ∷ [] else if cut then b'_' ∷ [] else [])
    ++ reason_loop (not (is_code r) && (cut || last)) (started || is_code r) s

unfoldable pub normalize_reason_code : Unicode → Text → Text
unfolding reason_loop trim_space trim_left trim_right
normalize_reason_code u value =
    let trim = λ (c : ℕ). c == b'_' in
    trim_right trim (trim_left trim (reason_loop false false (map u.to_lower (trim_space value))))
