-- ===== src/Matcher/Tests.antt =====
-- Tests and examples of internal/matcherbaseline.
use watchlist_platform.Base.{ℕ, ◌-◌, ◌≤◌, ◌≡◌, refl, ◌↔◌, true, false, List, [], ◌∷◌, ◌++◌}
use watchlist_platform.Base.Int.{pos, pos_part}
use watchlist_platform.Base.Text.{Text, text}
use watchlist_platform.Base.Unicode.{ascii}
use watchlist_platform.Matcher.Table.{onto}
use watchlist_platform.Matcher.Edit.{levenshtein, edit_similarity}
use watchlist_platform.Matcher.Script.{Script, levenshtein-least}
use watchlist_platform.Matcher.Similarity.{edit_similarity-faithful}
use watchlist_platform.Matcher.Tokens.{ordered_matches}
use watchlist_platform.Matcher.Ordered.{Matching, ordered_matches-largest}
use watchlist_platform.Matcher.Phonetic.{soundex}
use watchlist_platform.Matcher.Soundex.{IsCode, soundex-IsCode}
use watchlist_platform.Matcher.Fold.{pdf, rlo, fold}
use watchlist_platform.Matcher.Bidi.{fold_spoofed}
use watchlist_platform.Matcher.Profile.{
  ThresholdProfile, ProfileSet, valid_numbers, valid_profiles, profile,
}
use watchlist_platform.Matcher.Find.{find_profile, profile-eq-find}
use watchlist_platform.Matcher.Score.{score_pair}
use watchlist_platform.Base.Result.{Result, err, ok}
use watchlist_platform.Base.{map, is_empty, inl, ◌⊎◌, All, Option, some}
use watchlist_platform.Base.Text.{eq_text, lt_text}
use watchlist_platform.Matcher.Fold.{filtered}
use watchlist_platform.Matcher.Profile.{search, search_from, at_least, at, with_id}
use watchlist_platform.Matcher.Score.{score_name}
use watchlist_platform.Matcher.Candidates.{
  NameEntry, ProviderCandidate, SearchRequest, is_name_route, has_name_route, contains_text,
}
use watchlist_platform.Matcher.Provider.{
  Host, SearchError, Found, judge, verdict, entry_score, is_weak, candidate_of, search_exact,
  search_names, search_with_diagnostics,
}
use watchlist_platform.Matcher.Search.{reaches}
use watchlist_platform.Matcher.Found.{IsFrom, IsAccepted}
use watchlist_platform.Matcher.Results.{search_sound, search_complete}
use watchlist_platform.Matcher.Range.{contributed, score_pair-explained}

kitten : levenshtein (text "KITTEN") (text "SITTING") ≡ 3
unfolding levenshtein
kitten = refl

robert : soundex ascii (text "Robert") ≡ text "R163"
unfolding soundex
robert = refl

spoofed :
    fold ascii (λ r. false) (text "acme " ++ (rlo ∷ (text "STROPMI" ++ pdf ∷ text " llc")))
    ≡ text "ACME IMPORTS LLC"
unfolding fold
spoofed = refl

levenshtein-least_example :
    Script (text "KITTEN") (text "SITTING") (levenshtein (text "KITTEN") (text "SITTING"))
    × ((n : ℕ)
        → Script (text "KITTEN") (text "SITTING") n
        → levenshtein (text "KITTEN") (text "SITTING") ≤ n)
levenshtein-least_example = levenshtein-least (text "KITTEN") (text "SITTING")

edit_similarity-faithful_example :
    (edit_similarity (text "ACME") (text "ACNE") ≤ 10000)
    × ((edit_similarity (text "ACME") (text "ACNE") ≡ 10000) ↔ (text "ACME" ≡ text "ACNE"))
    × (edit_similarity (text "ACME") (text "ACNE") ≡ edit_similarity (text "ACNE") (text "ACME"))
edit_similarity-faithful_example = edit_similarity-faithful (text "ACME") (text "ACNE")

abbrev words : List Text
words = text "ACME" ∷ text "IMPORTS" ∷ []

abbrev turned : List Text
turned = text "IMPORTS" ∷ text "ACME" ∷ text "GLOBAL" ∷ []

ordered_matches-largest_example :
    Matching words turned (ordered_matches words turned)
    × ((n : ℕ) → Matching words turned n → n ≤ ordered_matches words turned)
ordered_matches-largest_example = ordered_matches-largest words turned

soundex-IsCode_example : IsCode (soundex ascii (text "Robert"))
soundex-IsCode_example = soundex-IsCode ascii (text "Robert")

fold_spoofed_example :
    fold ascii
      (λ r. false)
      (text "ACME " ++ (rlo ∷ (onto (text "IMPORTS") [] ++ pdf ∷ text " LLC")))
    ≡ fold ascii (λ r. false) (text "ACME " ++ (text "IMPORTS" ++ text " LLC"))
fold_spoofed_example =
    fold_spoofed ascii (λ r. false) rlo (text "ACME ") (text "IMPORTS") (text " LLC") refl refl refl
      refl

abbrev profile_named : Text → ThresholdProfile
profile_named id = record {
  profile_id = id;
  threshold = pos 8000;
  diagnostic_floor = pos 7000;
  token_alignment_weight = pos 3500;
  edit_similarity_weight = pos 3000;
  ordered_token_weight = pos 1500;
  phonetic_weight = pos 1000;
  length_weight = pos 1000;
  single_token_penalty = pos 500;
  weak_alias_penalty = pos 700;
}

abbrev example_set : ProfileSet
example_set = record {
  schema_version = [];
  profile_set_id = [];
  profile_set_version = [];
  profile_set_checksum = [];
  matcher_version = [];
  profiles = profile_named (text "balanced") ∷ profile_named (text "strict") ∷ [];
}

example_set_valid : valid_profiles example_set.profiles ≡ true
unfolding valid_profiles
example_set_valid = refl

profile-eq-find_example :
    profile example_set (text "strict") ≡ find_profile (text "strict") example_set.profiles
profile-eq-find_example = profile-eq-find example_set (text "strict") example_set_valid

balanced_valid : valid_numbers (profile_named (text "balanced")) ≡ true
unfolding valid_numbers
balanced_valid = refl

score_pair-explained_example :
    ((score_pair ascii
        (λ r. false)
        (text "Acme")
        (text "Acme Ltd")
        (profile_named (text "balanced"))).total
      ≡ pos (
          contributed
            (score_pair ascii
              (λ r. false)
              (text "Acme")
              (text "Acme Ltd")
              (profile_named (text "balanced"))).features
          - pos_part
              (score_pair ascii
                (λ r. false)
                (text "Acme")
                (text "Acme Ltd")
                (profile_named (text "balanced"))).penalty))
    × (contributed
          (score_pair ascii
            (λ r. false)
            (text "Acme")
            (text "Acme Ltd")
            (profile_named (text "balanced"))).features
        ≤ 10000)
score_pair-explained_example =
    score_pair-explained ascii (λ r. false) (text "Acme") (text "Acme Ltd")
      (profile_named (text "balanced")) balanced_valid

abbrev ascii_host : Host
ascii_host = record {
  unicode = ascii;
  is_format = λ r. false;
  equal_fold = λ a b. eq_text (map ascii.to_upper a) (map ascii.to_upper b);
  quoted = λ t. t;
}

abbrev acme : NameEntry
acme = record {
  provider_record_id = text "r1";
  entity_type = text "organization";
  primary_name = text "ACME";
  matched_value = text "ACME";
  normalized_matched_value = text "ACME";
  match_route = text "alias";
  attributes = [];
  source_assertions = [];
}

abbrev acme_request : SearchRequest
acme_request = record {
  semantic_role = text "debtor";
  normalized_value = text "ACME";
  match_routes = text "alias" ∷ [];
  target_entity_types = text "organization" ∷ [];
  threshold_profile = text "strict";
}

abbrev no_exact : SearchRequest → Option (List ProviderCandidate)
no_exact r = some []

strict_found : profile example_set (text "strict") ≡ some (profile_named (text "strict"))
unfolding profile search search_from at_least at with_id
strict_found = refl

no_exact_found : search_exact ascii_host example_set (acme ∷ []) no_exact acme_request ≡ ok []
unfolding search_exact filtered is_name_route eq_text
no_exact_found = refl

abbrev the_found : Result SearchError Found → Found
the_found (err e) = record { candidates = []; diagnostics = [] }
the_found (ok found) = found

abbrev acme_found : Found
unfolding search_names
acme_found = the_found (
    search_names ascii_host example_set (acme ∷ []) no_exact acme_request []
      (some (profile_named (text "strict"))))

acme_searched :
    search_with_diagnostics ascii_host example_set (acme ∷ []) no_exact acme_request ≡ ok acme_found
unfolding search_with_diagnostics search_exact filtered is_name_route has_name_route search_names
    profile search search_from at_least at with_id eq_text lt_text acme_found fold
acme_searched = refl

abbrev folded_acme : Text
folded_acme = fold ascii (λ r. false) (text "ACME")

acme-IsFrom :
    IsFrom ascii_host example_set
      (profile_named (text "strict"))
      acme_request
      folded_acme
      (acme ∷ [])
      (candidate_of ascii_host example_set
        (profile_named (text "strict"))
        acme_request
        folded_acme
        acme)
unfolding IsFrom judge verdict entry_score score_name contains_text is_weak eq_text fold
acme-IsFrom = inl refl

search_sound_example :
    All
      (λ c.
        (c.score ≡ pos 0)
        ⊎ (IsFrom ascii_host example_set
              (profile_named (text "strict"))
              acme_request
              folded_acme
              (acme ∷ [])
              c
            × IsAccepted ascii_host example_set
                (profile_named (text "strict"))
                acme_request
                folded_acme
                c))
      acme_found.candidates
search_sound_example =
    search_sound ascii_host example_set (acme ∷ []) no_exact (λ c. c.score ≡ pos 0) acme_request
      no_exact_found tt strict_found acme_searched

acme_not_empty : is_empty folded_acme ≡ false
unfolding fold
acme_not_empty = refl

acme_routes : has_name_route acme_request.match_routes ≡ true
unfolding has_name_route is_name_route eq_text
acme_routes = refl

search_complete_example :
    reaches
      (text "r1")
      (candidate_of ascii_host example_set
        (profile_named (text "strict"))
        acme_request
        folded_acme
        acme).score
      acme_found.candidates
    ≡ true
unfolding candidate_of
search_complete_example =
    search_complete ascii_host example_set (acme ∷ []) no_exact acme_request
      (candidate_of ascii_host example_set (profile_named (text "strict")) acme_request folded_acme
        acme)
      no_exact_found strict_found acme_searched acme_routes acme_not_empty acme-IsFrom
