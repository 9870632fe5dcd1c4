-- ===== src/Scoring/Matching.antt =====
-- What the comparisons of a subject with a candidate find, against descriptions that compare every
-- pair.
use watchlist_platform.Base.{
  ℕ, ◌≡◌, refl, sym, ◌∙◌, Bool, true, false, ◌&&◌, ◌||◌, not, List, [], ◌∷◌, ◌++◌, is_empty, any,
  All, All-append, arith, Bool-cases, if◌then◌else◌, inl, inr,
}
use watchlist_platform.Base.Text.{
  Text, eq_text, eq_text_iff, lt_text_asymm, lt_text_trans, lt_text_connex,
}
use watchlist_platform.Base.Sort.{sort, sort-any, sort-All, sort-IsSorted, IsSorted, IsOrder}
use watchlist_platform.Base.Unicode.{Unicode}
use watchlist_platform.Scoring.Types.{Identifier}
use watchlist_platform.Scoring.Normalize.{normalize_text}
use watchlist_platform.Scoring.Match.{
  Key, selected, best, identifier_key, eq_key, less_key, candidate_set, key_matches,
  identifier_match, NameShape, no_shape, exact, concatenation_normalized, token_set,
  particle_stripped, prefix, containment, NameMatch, name_shape, candidate_names, name_matches,
  less_match, best_name_match,
}
use watchlist_platform.Scoring.Candidate.{is_exact}

any_empty {ℓ} : {A : Type ℓ} (l : List A) → any (λ _. true) l ≡ not (is_empty l)
any_empty [] = refl
any_empty (x ∷ l) = refl

selected_found : (l : List Key) → (selected l).0 ≡ not (is_empty l)
selected_found [] = refl
selected_found (k ∷ l) = refl

sort-nonempty {ℓ} :
    {A : Type ℓ} (less : A → A → Bool) (l : List A)
    → not (is_empty (sort less l)) ≡ not (is_empty l)
sort-nonempty less l = sym (any_empty (sort less l)) ∙ sort-any less (λ _. true) l ∙ any_empty l

-- Some candidate identifier has the key of some subject identifier, with neither part empty.
abbrev usable : Key → Bool
usable k = not (is_empty k.0) && not (is_empty k.1)

module _ (u : Unicode) where
  has_key : Key → List Identifier → Bool
  has_key k [] = false
  has_key k (j ∷ js) = let key = identifier_key u j in (usable key && eq_key k key) || has_key k js

  pub shares_identifier : List Identifier → List Identifier → Bool
  shares_identifier [] cs = false
  shares_identifier (i ∷ is) cs = has_key (identifier_key u i) cs || shares_identifier is cs

  has_key-set :
      (k : Key) (cs : List Identifier) → any (eq_key k) (candidate_set u cs) ≡ has_key k cs
  unfolding has_key candidate_set
  has_key-set k [] = refl
  has_key-set k (j ∷ js) = ground (arith, has_key-set k js)

  matches_shared :
      (ss cs : List Identifier)
      → not (is_empty (key_matches u (candidate_set u cs) ss)) ≡ shares_identifier ss cs
  unfolding key_matches shares_identifier
  matches_shared [] cs = refl
  matches_shared (i ∷ is) cs =
      ground (arith, has_key-set (identifier_key u i) cs, matches_shared is cs)

  -- identifierMatch reports a match exactly if a subject identifier and a candidate identifier have
  -- the same normalised type and the same normalised value, both non-empty.
  pub identifier_match-shared :
      (ss cs : List Identifier) → (identifier_match u ss cs).0 ≡ shares_identifier ss cs
  unfolding identifier_match
  identifier_match-shared ss cs =
      let found = key_matches u (candidate_set u cs) ss in
      selected_found (sort less_key found) ∙ sort-nonempty less_key found ∙ matches_shared ss cs

-- A name that has the same non-empty normal form on both sides.
module _ (u : Unicode) where
  has_name : Text → List Text → Bool
  has_name ns [] = false
  has_name ns (raw ∷ raws) =
      (not (is_empty (normalize_text u raw)) && eq_text ns (normalize_text u raw))
      || has_name ns raws

  pub shares_name : List Text → List Text → Bool
  shares_name [] cs = false
  shares_name (raw ∷ raws) cs =
      (not (is_empty (normalize_text u raw)) && has_name (normalize_text u raw) cs)
      || shares_name raws cs

abbrev exact_match : NameMatch → Bool
exact_match m = is_exact m.shape

abbrev rank_of : NameShape → ℕ
rank_of exact = 6
rank_of concatenation_normalized = 5
rank_of token_set = 4
rank_of particle_stripped = 3
rank_of prefix = 2
rank_of containment = 1
rank_of no_shape = 0

abbrev IsRanked : NameMatch → Type 0
IsRanked m = m.rank ≡ rank_of m.shape

module _ {A : Type 0} where
  any_unless :
      (p : A → Bool) (b : Bool) (xs : List A) → any p (if b then [] else xs) ≡ (not b && any p xs)
  any_unless p true xs = refl
  any_unless p false xs = refl

  All-unless : (P : A → Type 0) (b : Bool) (xs : List A) → All P xs → All P (if b then [] else xs)
  All-unless P true xs h = tt
  All-unless P false xs h = h

any-append {ℓ} :
    {A : Type ℓ} (p : A → Bool) (xs ys : List A) → any p (xs ++ ys) ≡ (any p xs || any p ys)
any-append p [] ys = refl
any-append p (x ∷ xs) ys = ground (arith, any-append p xs ys)

module _ (u : Unicode) where
  name_shape-exact : (ns nc : Text) → any exact_match (name_shape u ns nc) ≡ eq_text ns nc
  unfolding name_shape
  name_shape-exact ns nc = ground arith

  name_shape-IsRanked : (ns nc : Text) → All IsRanked (name_shape u ns nc)
  unfolding name_shape
  name_shape-IsRanked ns nc = ground arith

  candidate_names-exact :
      (ns : Text) (cs : List Text) → any exact_match (candidate_names u ns cs) ≡ has_name u ns cs
  unfolding candidate_names has_name
  candidate_names-exact ns [] = refl
  candidate_names-exact ns (raw ∷ raws) =
      let nc = normalize_text u raw in
      rw
        (
          any-append exact_match (if is_empty nc then [] else name_shape u ns nc)
              (candidate_names u ns raws),
          any_unless exact_match (is_empty nc) (name_shape u ns nc),
          name_shape-exact ns nc,
          candidate_names-exact ns raws,
        )
        refl

  candidate_names-IsRanked : (ns : Text) (cs : List Text) → All IsRanked (candidate_names u ns cs)
  unfolding candidate_names
  candidate_names-IsRanked ns [] = tt
  candidate_names-IsRanked ns (raw ∷ raws) =
      let nc = normalize_text u raw in
      All-append IsRanked (if is_empty nc then [] else name_shape u ns nc)
        (candidate_names u ns raws)
        (All-unless IsRanked (is_empty nc) (name_shape u ns nc) (name_shape-IsRanked ns nc))
        (candidate_names-IsRanked ns raws)

  name_matches-exact :
      (ss cs : List Text) → any exact_match (name_matches u ss cs) ≡ shares_name u ss cs
  unfolding name_matches shares_name
  name_matches-exact [] cs = refl
  name_matches-exact (raw ∷ raws) cs =
      let ns = normalize_text u raw in
      rw
        (
          any-append exact_match (if is_empty ns then [] else candidate_names u ns cs)
              (name_matches u raws cs),
          any_unless exact_match (is_empty ns) (candidate_names u ns cs),
          candidate_names-exact ns cs,
          name_matches-exact raws cs,
        )
        refl

  name_matches-IsRanked : (ss cs : List Text) → All IsRanked (name_matches u ss cs)
  unfolding name_matches
  name_matches-IsRanked [] cs = tt
  name_matches-IsRanked (raw ∷ raws) cs =
      let ns = normalize_text u raw in
      All-append IsRanked (if is_empty ns then [] else candidate_names u ns cs)
        (name_matches u raws cs)
        (All-unless IsRanked (is_empty ns) (candidate_names u ns cs)
          (candidate_names-IsRanked ns cs))
        (name_matches-IsRanked raws cs)

less_match_asymm : (a b : NameMatch) → less_match a b ≡ true → less_match b a ≡ false
unfolding less_match
less_match_asymm a b h = ground (
  arith,
  eq_text_iff a.subject b.subject,
  eq_text_iff b.subject a.subject,
  lt_text_asymm a.subject b.subject,
  lt_text_asymm a.candidate b.candidate,
)

less_match_trans :
    (a b c : NameMatch) → less_match b a ≡ false → less_match c b ≡ false → less_match c a ≡ false
unfolding less_match
less_match_trans a b c h k = ground (
  arith,
  eq_text_iff b.subject a.subject,
  eq_text_iff c.subject b.subject,
  eq_text_iff c.subject a.subject,
  lt_text_connex a.subject b.subject,
  lt_text_connex b.subject c.subject,
  lt_text_trans c.subject a.subject b.subject,
  lt_text_connex a.candidate b.candidate,
  lt_text_trans c.candidate a.candidate b.candidate,
)

less_match-IsOrder : IsOrder less_match
less_match-IsOrder = record { asymm = less_match_asymm; trans = less_match_trans }

exact_outranks :
    (m z : NameMatch)
    → less_match z m ≡ false
    → IsRanked m
    → IsRanked z
    → exact_match z ≡ true
    → exact_match m ≡ true
unfolding less_match
exact_outranks m z h r k e = ground arith

exact_first :
    (m : NameMatch) (ms : List NameMatch)
    → All (λ z. less_match z m ≡ false) ms
    → IsRanked m
    → All IsRanked ms
    → any exact_match ms ≡ true
    → exact_match m ≡ true
unfolding less_match
exact_first m [] h r rs e = cc
exact_first m (z ∷ ms) h r rs e = elim (Bool-cases (exact_match z)) [
  | inl x ↦ exact_outranks m z h.0 r rs.0 x
  | inr x ↦ exact_first m ms h.1 r rs.1 (ground arith)
]

best_exact :
    (ms : List NameMatch)
    → IsSorted less_match ms
    → All IsRanked ms
    → is_exact (best ms).0 ≡ any exact_match ms
best_exact [] s r = refl
best_exact (m ∷ ms) s r = ground (arith, exact_first m ms s.0 r.0 r.1)

-- bestNameMatch reports shape `exact` exactly if some subject name and some candidate name have the
-- same non-empty normal form, however many weaker matches there are.
pub best_name_match-exact :
    (u : Unicode) (ss cs : List Text) → is_exact (best_name_match u ss cs).0 ≡ shares_name u ss cs
unfolding best_name_match
best_name_match-exact u ss cs =
    let ms = name_matches u ss cs in
    best_exact (sort less_match ms) (sort-IsSorted less_match less_match-IsOrder ms)
      (sort-All less_match IsRanked ms (name_matches-IsRanked u ss cs))
    ∙ sort-any less_match exact_match ms
    ∙ name_matches-exact u ss cs
