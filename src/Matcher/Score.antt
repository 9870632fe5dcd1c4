-- ===== src/Matcher/Score.antt =====
-- The score of a pair of names: scoreName of internal/matcherbaseline/similarity.go and ScorePair of
-- score_pair.go. `int` is ℤ.
use watchlist_platform.Base.{
  ℕ, ◌+◌, ◌||◌, ◌&&◌, not, Bool, List, [], ◌∷◌, map, length, ◌==◌, if◌then◌else◌,
}
use watchlist_platform.Base.Int.{ℤ, pos, neg_part, pos_part, sub_ℕ, lt_ℤ, add64, wrap64}
use watchlist_platform.Base.Sort.{sort}
use watchlist_platform.Base.Text.{Text, text, eq_text, lt_text}
use watchlist_platform.Base.Unicode.{Unicode}
use watchlist_platform.Decision.Evaluate.{mul64, basis_points}
use watchlist_platform.Matcher.Edit.{length_similarity}
use watchlist_platform.Matcher.Tokens.{
  best_edit_similarity, ordered_token_similarity, token_alignment_similarity,
}
use watchlist_platform.Matcher.Phonetic.{phonetic_similarity}
use watchlist_platform.Matcher.Fold.{tokens, fold}
use watchlist_platform.Matcher.Profile.{ThresholdProfile}

pub record FeatureScore : Type 0 where
  pub name : Text
  pub score : ℕ
  pub weight : ℤ
  pub contribution : ℤ

-- `a - b` on int
unfoldable pub sub64 : ℤ → ℤ → ℤ
unfolding wrap64
sub64 a b = wrap64 (sub_ℕ (pos_part a + neg_part b) (pos_part b + neg_part a))

-- the literal of a feature, whose contribution is 0
abbrev pub feature : Text → ℕ → ℤ → FeatureScore
feature name score weight = record {
  name = name;
  score = score;
  weight = weight;
  contribution = pos 0;
}

unfoldable pub name_precedes : FeatureScore → FeatureScore → Bool
unfolding lt_text
name_precedes a b = lt_text a.name b.name

unfoldable pub contribute : FeatureScore → FeatureScore
unfolding mul64 basis_points
contribute f = record {
  name = f.name;
  score = f.score;
  weight = f.weight;
  contribution = basis_points (mul64 (pos f.score) f.weight);
}

-- `total += features[i].contribution`
unfoldable pub total_from : ℤ → List FeatureScore → ℤ
unfolding add64
total_from total [] = total
total_from total (f ∷ features) = total_from (add64 total f.contribution) features

unfoldable pub token_penalty : Text → Text → List Text → List Text → ThresholdProfile → ℤ
unfolding eq_text
token_penalty query candidate qt ct p =
    if not (eq_text query candidate) && (length qt == 1 || length ct == 1)
    then p.single_token_penalty
    else pos 0

-- `total -= penalty`, and 0 where this is negative
unfoldable pub penalized : ℤ → ℤ → ℤ
unfolding sub64
penalized total penalty =
    let rest = sub64 total penalty in if lt_ℤ rest (pos 0) then pos 0 else rest

pub record Score : Type 0 where
  pub total : ℤ
  pub features : List FeatureScore
  pub penalty : ℤ

module _ (u : Unicode) where
  unfoldable pub all_features : Text → Text → ThresholdProfile → List FeatureScore
  unfolding best_edit_similarity length_similarity ordered_token_similarity phonetic_similarity
      token_alignment_similarity tokens
  all_features query candidate p =
      let qt = tokens query in
      let ct = tokens candidate in
      feature (text "edit_similarity") (best_edit_similarity query candidate qt ct)
        p.edit_similarity_weight
      ∷ feature (text "length_similarity") (length_similarity query candidate) p.length_weight
      ∷ feature (text "ordered_token_similarity") (ordered_token_similarity qt ct)
          p.ordered_token_weight
      ∷ feature (text "phonetic_similarity") (phonetic_similarity u qt ct) p.phonetic_weight
      ∷ feature (text "token_alignment_similarity") (token_alignment_similarity qt ct)
          p.token_alignment_weight
      ∷ []

  unfoldable pub score_name : Text → Text → ThresholdProfile → Score
  unfolding all_features name_precedes sort contribute total_from token_penalty penalized tokens
  score_name query candidate p =
      let features = map contribute (sort name_precedes (all_features query candidate p)) in
      let penalty = token_penalty query candidate (tokens query) (tokens candidate) p in
      record {
        total = penalized (total_from (pos 0) features) penalty;
        features = features;
        penalty = penalty;
      }

  -- The evidence repeats the fields of the features.
  unfoldable pub score_pair : (ℕ → Bool) → Text → Text → ThresholdProfile → Score
  unfolding fold score_name
  score_pair is_format query candidate p =
      score_name (fold u is_format query) (fold u is_format candidate) p
