-- ===== src/Scoring/Match.antt =====
-- identifierMatch, bestNameMatch, dateMatch and setMatch of internal/candidatescoring/engine.go.
-- The shapes and outcomes, strings in the source, are data types; the empty string is `no_shape`
-- and `no_outcome`.
use watchlist_platform.Base.{
  ℕ, Bool, true, false, ◌&&◌, ◌||◌, not, List, [], ◌∷◌, ◌++◌, length, take, is_empty, any, ltb, leb,
  ◌==◌, if◌then◌else◌,
}
use watchlist_platform.Base.Text.{Text, eq_text, lt_text, has_prefix, contains, utf8}
use watchlist_platform.Base.Sort.{sort}
use watchlist_platform.Base.Sets.{member, unique_sorted}
use watchlist_platform.Base.Unicode.{Unicode}
use watchlist_platform.Scoring.Types.{Identifier}
use watchlist_platform.Scoring.Normalize.{
  normalize_text, normalize_identifier_type, normalize_identifier_value, normalize_date,
  equal_token_set, equal_spaces_stripped, equal_particle_stripped_token_set,
}

-- the struct `pair` of identifierMatch
abbrev pub Key : Type 0
Key = Text × Text

unfoldable pub identifier_key : Unicode → Identifier → Key
unfolding normalize_identifier_type normalize_identifier_value
identifier_key u i = (normalize_identifier_type u i.typ, normalize_identifier_value u i.value)

unfoldable pub eq_key : Key → Key → Bool
unfolding eq_text
eq_key (t, v) (t', v') = eq_text t t' && eq_text v v'

unfoldable pub less_key : Key → Key → Bool
unfolding eq_text lt_text
less_key (t, v) (t', v') = if not (eq_text t t') then lt_text t t' else lt_text v v'

-- the keys of candidateSet
unfoldable pub candidate_set : Unicode → List Identifier → List Key
unfolding identifier_key
candidate_set u [] = []
candidate_set u (i ∷ is) =
    let key = identifier_key u i in
    let rest = candidate_set u is in
    if not (is_empty key.0) && not (is_empty key.1) then key ∷ rest else rest

unfoldable pub key_matches : Unicode → List Key → List Identifier → List Key
unfolding identifier_key eq_key
key_matches u set [] = []
key_matches u set (i ∷ is) =
    let key = identifier_key u i in
    let rest = key_matches u set is in if any (eq_key key) set then key ∷ rest else rest

-- `typ + ":" + value`, also what candidateDisplay holds
abbrev display : Key → Text
display (t, v) = t ++ b':' ∷ v

abbrev pub selected : List Key → Bool × Text × Text
selected [] = (false, [], [])
selected (k ∷ ks) = (true, display k, display k)

unfoldable pub identifier_match : Unicode → List Identifier → List Identifier → Bool × Text × Text
unfolding candidate_set key_matches less_key sort
identifier_match u subject candidate =
    selected (sort less_key (key_matches u (candidate_set u candidate) subject))

pub data NameShape : Type 0 where
  no_shape exact concatenation_normalized token_set particle_stripped prefix containment : NameShape

pub record NameMatch : Type 0 where
  pub rank : ℕ
  pub shape : NameShape
  pub subject : Text
  pub candidate : Text

abbrev name_match : ℕ → NameShape → Text → Text → List NameMatch
name_match r s ns nc = record { rank = r; shape = s; subject = ns; candidate = nc } ∷ []

-- the `switch` of bestNameMatch
unfoldable pub name_shape : Unicode → Text → Text → List NameMatch
unfolding eq_text equal_spaces_stripped equal_token_set equal_particle_stripped_token_set has_prefix
    contains
name_shape u ns nc =
    if eq_text ns nc
    then name_match 6 exact ns nc
    else if equal_spaces_stripped ns nc
    then name_match 5 concatenation_normalized ns nc
    else if equal_token_set u ns nc
    then name_match 4 token_set ns nc
    else if equal_particle_stripped_token_set u ns nc
    then name_match 3 particle_stripped ns nc
    else if has_prefix ns nc || has_prefix nc ns
    then name_match 2 prefix ns nc
    else if contains ns nc || contains nc ns
    then name_match 1 containment ns nc
    else []

-- the inner loop, with the normalised subject name
unfoldable pub candidate_names : Unicode → Text → List Text → List NameMatch
unfolding normalize_text name_shape
candidate_names u ns [] = []
candidate_names u ns (raw ∷ raws) =
    let nc = normalize_text u raw in
    (if is_empty nc then [] else name_shape u ns nc) ++ candidate_names u ns raws

-- the outer loop
unfoldable pub name_matches : Unicode → List Text → List Text → List NameMatch
unfolding normalize_text candidate_names
name_matches u [] candidate = []
name_matches u (raw ∷ raws) candidate =
    let ns = normalize_text u raw in
    (if is_empty ns then [] else candidate_names u ns candidate) ++ name_matches u raws candidate

unfoldable pub less_match : NameMatch → NameMatch → Bool
unfolding eq_text lt_text
less_match a b =
    if not (a.rank == b.rank)
    then ltb b.rank a.rank
    else if not (eq_text a.subject b.subject)
    then lt_text a.subject b.subject
    else lt_text a.candidate b.candidate

abbrev pub best : List NameMatch → NameShape × Text × Text
best [] = (no_shape, [], [])
best (m ∷ ms) = (m.shape, m.subject, m.candidate)

unfoldable pub best_name_match : Unicode → List Text → List Text → NameShape × Text × Text
unfolding name_matches less_match sort
best_name_match u subject candidate = best (sort less_match (name_matches u subject candidate))

pub data Outcome : Type 0 where
  no_outcome same same_year conflict : Outcome

abbrev pub Compared : Type 0
Compared = Outcome × Text × Text

-- The first value of the list that passes the test.
unfoldable pub first : (Text → Bool) → List Text → List Text
first p [] = []
first p (x ∷ xs) = let rest = first p xs in if p x then x ∷ [] else rest

-- Two nested loops that return the first pair, by rows, that passes the test; `other` if none does.
unfoldable pub first_pair :
    Outcome → (Text → Text → Bool) → List Text → List Text → Compared → Compared
unfolding first
first_pair found test [] c other = other
first_pair found test (sv ∷ s) c other = elim (first (test sv) c) [
  | [] ↦ first_pair found test s c other
  | cv ∷ _ ↦ (found, sv, cv)
]

-- `len(sv) >= 4 && len(cv) >= 4 && sv[:4] == cv[:4]`, on bytes
unfoldable pub year_equal : Text → Text → Bool
unfolding utf8 eq_text
year_equal sv cv =
    leb 4 (length (utf8 sv))
    && leb 4 (length (utf8 cv))
    && eq_text (take 4 (utf8 sv)) (take 4 (utf8 cv))

abbrev pub heads : List Text → List Text → Compared
heads (s ∷ _) (c ∷ _) = (conflict, s, c)
heads _ _ = (no_outcome, [], [])

unfoldable pub date_match : List Text → List Text → Compared
unfolding unique_sorted normalize_date first_pair year_equal eq_text
date_match subject candidate =
    let s = unique_sorted normalize_date subject in
    let c = unique_sorted normalize_date candidate in
    if is_empty s || is_empty c
    then (no_outcome, [], [])
    else first_pair same eq_text s c (first_pair same_year year_equal s c (heads s c))

abbrev pub common : List Text → Compared → Compared
common [] other = other
common (v ∷ _) other = (same, v, v)

unfoldable pub set_match : (Text → Text) → List Text → List Text → Compared
unfolding unique_sorted member first
set_match normalizer subject candidate =
    let s = unique_sorted normalizer subject in
    let c = unique_sorted normalizer candidate in
    if is_empty s || is_empty c
    then (no_outcome, [], [])
    else common (first (λ v. member v c) s) (heads s c)
