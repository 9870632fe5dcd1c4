-- ===== src/Matcher/Profile.antt =====
-- The threshold profiles of internal/matcherbaseline: types.go, and ValidateProfileSet,
-- StableProfileSetChecksum and Profile of profile.go. `int` is ℤ.
use watchlist_platform.Base.{
  ℕ, zero, suc, ◌+◌, ◌/◌, Bool, true, false, ◌&&◌, ◌||◌, not, List, [], ◌∷◌, ◌++◌, length, is_empty,
  all, Option, none, some, ltb, leb, ◌==◌, if◌then◌else◌,
}
use watchlist_platform.Base.Result.{Result, require}
use watchlist_platform.Base.Int.{ℤ, pos, lt_ℤ, eq_ℤ, add64}
use watchlist_platform.Base.Sort.{sort}
use watchlist_platform.Base.Text.{Text, text, eq_text, lt_text, trim_space, utf8}

pub record ThresholdProfile : Type 0 where
  pub profile_id : Text
  pub threshold : ℤ
  pub diagnostic_floor : ℤ
  pub token_alignment_weight : ℤ
  pub edit_similarity_weight : ℤ
  pub ordered_token_weight : ℤ
  pub phonetic_weight : ℤ
  pub length_weight : ℤ
  pub single_token_penalty : ℤ
  pub weak_alias_penalty : ℤ

pub record ProfileSet : Type 0 where
  pub schema_version : Text
  pub profile_set_id : Text
  pub profile_set_version : Text
  pub profile_set_checksum : Text
  pub matcher_version : Text
  pub profiles : List ThresholdProfile

abbrev pub profile_set_schema_version : Text
profile_set_schema_version = text "matcher-threshold-profile-set/v1alpha1"

abbrev pub known_matcher_version : Text
known_matcher_version = text "deterministic-name-matcher/v0.1.0"

-- strconv.Itoa, and the hexadecimal SHA-256 digest of a string's bytes
pub record Digest : Type 0 where
  pub itoa : ℤ → Text
  pub sha256_hex : Text → Text

-- strings.Join(parts, "\x1f")
unfoldable pub join_units : List Text → Text
join_units [] = []
join_units (t ∷ []) = t
join_units (t ∷ next ∷ parts) = t ++ 0x1f ∷ join_units (next ∷ parts)

unfoldable pub profile_parts : Digest → List ThresholdProfile → List Text
profile_parts d [] = []
profile_parts d (p ∷ profiles) =
    p.profile_id
    ∷ d.itoa p.threshold
    ∷ d.itoa p.diagnostic_floor
    ∷ d.itoa p.token_alignment_weight
    ∷ d.itoa p.edit_similarity_weight
    ∷ d.itoa p.ordered_token_weight
    ∷ d.itoa p.phonetic_weight
    ∷ d.itoa p.length_weight
    ∷ d.itoa p.single_token_penalty
    ∷ d.itoa p.weak_alias_penalty
    ∷ profile_parts d profiles

unfoldable pub id_precedes : ThresholdProfile → ThresholdProfile → Bool
unfolding lt_text
id_precedes a b = lt_text a.profile_id b.profile_id

unfoldable pub stable_profile_set_checksum : Digest → ProfileSet → Text
unfolding join_units profile_parts id_precedes sort
stable_profile_set_checksum d set = d.sha256_hex (
    join_units (
      profile_set_schema_version
      ∷ set.profile_set_id
      ∷ set.profile_set_version
      ∷ set.matcher_version
      ∷ profile_parts d (sort id_precedes set.profiles)))

abbrev pub in_basis_points : ℤ → Bool
in_basis_points v = not (lt_ℤ v (pos 0) || lt_ℤ (pos 10000) v)

unfoldable pub valid_thresholds : ThresholdProfile → Bool
valid_thresholds p = not (
    lt_ℤ p.threshold (pos 0)
    || lt_ℤ (pos 10000) p.threshold
    || lt_ℤ p.diagnostic_floor (pos 0)
    || lt_ℤ p.threshold p.diagnostic_floor)

-- the loop over the weights, and the test of their total
unfoldable pub valid_weights : ℤ → List ℤ → Bool
unfolding add64
valid_weights total [] = eq_ℤ total (pos 10000)
valid_weights total (weight ∷ weights) =
    in_basis_points weight && valid_weights (add64 total weight) weights

abbrev pub weights : ThresholdProfile → List ℤ
weights p =
    p.token_alignment_weight ∷ p.edit_similarity_weight ∷ p.ordered_token_weight ∷ p.phonetic_weight
    ∷ p.length_weight ∷ []

-- the checks of one profile, after those of its identifier
unfoldable pub valid_numbers : ThresholdProfile → Bool
unfolding valid_thresholds valid_weights
valid_numbers p =
    valid_thresholds p
    && (valid_weights (pos 0) (weights p)
        && (in_basis_points p.single_token_penalty && in_basis_points p.weak_alias_penalty))

-- the loop over the profiles after the first, whose identifiers ascend from `previous`
unfoldable pub valid_others : Text → List ThresholdProfile → Bool
unfolding trim_space lt_text valid_numbers
valid_others previous [] = true
valid_others previous (p ∷ profiles) =
    not (is_empty (trim_space p.profile_id))
    && (lt_text previous p.profile_id && (valid_numbers p && valid_others p.profile_id profiles))

-- the loop over the profiles; an empty set is refused before it
unfoldable pub valid_profiles : List ThresholdProfile → Bool
unfolding trim_space valid_numbers valid_others
valid_profiles [] = false
valid_profiles (p ∷ profiles) =
    not (is_empty (trim_space p.profile_id))
    && (valid_numbers p && valid_others p.profile_id profiles)

unfoldable pub required : Text → Bool
unfolding trim_space
required value = not (is_empty (trim_space value))

-- hex.DecodeString accepts an even number of these; the length is checked to be 64.
abbrev pub hex_digit : ℕ → Bool
hex_digit c = (leb b'0' c && leb c b'9') || (leb b'a' c && leb c b'f') || (leb b'A' c && leb c b'F')

-- The error of every check wraps ErrInvalidProfileSet; the messages are left out.
pub data ProfileError : Type 0 where
  invalid_profile_set : ProfileError

unfoldable pub valid_set : Digest → ProfileSet → Bool
unfolding eq_text required utf8 trim_space valid_profiles stable_profile_set_checksum
valid_set d set =
    eq_text set.schema_version profile_set_schema_version
    && (required set.profile_set_id
        && (required set.profile_set_version
            && (required set.profile_set_checksum
                && (required set.matcher_version
                    && (eq_text set.matcher_version known_matcher_version
                        && (length (utf8 set.profile_set_checksum) == 64
                            && (all hex_digit set.profile_set_checksum
                                && (valid_profiles set.profiles
                                    && eq_text set.profile_set_checksum
                                        (stable_profile_set_checksum d set)))))))))

unfoldable pub validate_profile_set : Digest → ProfileSet → Result ProfileError (Unit {0})
unfolding valid_set
validate_profile_set d set = require (valid_set d set) invalid_profile_set

-- sort.Search(n, f), the loop `for i < j`; `fuel` bounds its rounds
unfoldable pub search_from : ℕ → (ℕ → Bool) → ℕ → ℕ → ℕ
search_from zero f i j = i
search_from (suc fuel) f i j =
    let h = (i + j) / 2 in
    let lower = search_from fuel f i h in
    let upper = search_from fuel f (h + 1) j in if ltb i j then if f h then lower else upper else i

-- A round halves what is left, so `n` rounds are enough.
unfoldable pub search : ℕ → (ℕ → Bool) → ℕ
unfolding search_from
search n f = search_from n f 0 n

unfoldable pub at : ℕ → List ThresholdProfile → Option ThresholdProfile
at i [] = none
at zero (p ∷ profiles) = some p
at (suc i) (p ∷ profiles) = at i profiles

-- `set.Profiles[index].ProfileID >= profileID`; sort.Search asks for indices in range only
unfoldable pub at_least : Text → List ThresholdProfile → ℕ → Bool
unfolding at lt_text
at_least id profiles i = elim (at i profiles) [
  | none ↦ true
  | some p ↦ not (lt_text p.profile_id id)
]

unfoldable pub with_id : Text → Option ThresholdProfile → Option ThresholdProfile
unfolding eq_text
with_id id none = none
with_id id (some p) = if eq_text p.profile_id id then some p else none

unfoldable pub profile : ProfileSet → Text → Option ThresholdProfile
unfolding search at_least at with_id
profile set id =
    with_id id (at (search (length set.profiles) (at_least id set.profiles)) set.profiles)
