-- ===== src/Matcher/Bidi.antt =====
-- Folding undoes a bidirectional override.
use watchlist_platform.Base.{
  ℕ, ◌≡◌, refl, sym, ap, ◌∙◌, Bool, true, false, ◌||◌, [], ◌∷◌, ◌++◌, map, any, ◌==◌, Bool-cases,
  inl, inr, arith,
}
use watchlist_platform.Base.Text.{Text, fields}
use watchlist_platform.Base.Unicode.{Unicode}
use watchlist_platform.Matcher.Table.{onto, onto_twice}
use watchlist_platform.Matcher.Tokens.{join_words}
use watchlist_platform.Matcher.Fold.{
  pdf, is_override, outside, inside, resolve_bidi_overrides, fold_runes, fold,
}

abbrev is_pdf : ℕ → Bool
is_pdf r = r == pdf

any-append : (p : ℕ → Bool) (xs ys : Text) → any p (xs ++ ys) ≡ any p xs || any p ys
any-append p [] ys = refl
any-append p (x ∷ xs) ys = ground (arith, any-append p xs ys)

any-onto : (p : ℕ → Bool) (xs ps : Text) → any p (onto xs ps) ≡ any p xs || any p ps
unfolding onto
any-onto p [] ps = refl
any-onto p (x ∷ xs) ps = ground (arith, any-onto p xs (x ∷ ps))

outside-append : (xs ys : Text) → any is_override xs ≡ false → outside (xs ++ ys) ≡ xs ++ outside ys
unfolding outside
outside-append [] ys h = refl
outside-append (x ∷ xs) ys h =
    let head : is_override x ≡ false = ground (arith, h) in
    let others : any is_override xs ≡ false = ground (arith, h) in
    rw head (ap (λ s. x ∷ s) (outside-append xs ys others))

outside_plain : (xs : Text) → any is_override xs ≡ false → outside xs ≡ xs
unfolding outside
outside_plain [] h = refl
outside_plain (x ∷ xs) h =
    let head : is_override x ≡ false = ground (arith, h) in
    let others : any is_override xs ≡ false = ground (arith, h) in
    rw head (ap (λ s. x ∷ s) (outside_plain xs others))

pub resolve-eq-outside : (value : Text) → resolve_bidi_overrides value ≡ outside value
unfolding resolve_bidi_overrides
resolve-eq-outside value = elim (Bool-cases (any is_override value)) [
  | inl h ↦ rw h refl
  | inr h ↦ rw h (sym (outside_plain value h))
]

inside-append :
    (span xs ys : Text)
    → any is_pdf xs ≡ false
    → inside span (xs ++ pdf ∷ ys) ≡ onto xs span ++ outside ys
unfolding outside onto
inside-append span [] ys h = refl
inside-append span (x ∷ xs) ys h =
    let head : (x == pdf) ≡ false = ground (arith, h) in
    let others : any is_pdf xs ≡ false = ground (arith, h) in
    rw head (inside-append (x ∷ span) xs ys others)

override_outside :
    (c : ℕ) (span ys : Text)
    → is_override c ≡ true
    → any is_pdf span ≡ false
    → outside (c ∷ (onto span [] ++ pdf ∷ ys)) ≡ span ++ outside ys
unfolding outside
override_outside c span ys h k = rw h (
    inside-append [] (onto span []) ys (ground (arith, any-onto is_pdf span [], k))
    ∙ ap (λ s. s ++ outside ys) (onto_twice span))

resolve_override :
    (c : ℕ) (before span after : Text)
    → is_override c ≡ true
    → any is_override before ≡ false
    → any is_override span ≡ false
    → any is_pdf span ≡ false
    → resolve_bidi_overrides (before ++ (c ∷ (onto span [] ++ pdf ∷ after)))
      ≡ resolve_bidi_overrides (before ++ (span ++ after))
resolve_override c before span after hc hb hs hp =
    resolve-eq-outside (before ++ (c ∷ (onto span [] ++ pdf ∷ after)))
    ∙ outside-append before (c ∷ (onto span [] ++ pdf ∷ after)) hb
    ∙ ap (λ s. before ++ s)
        (override_outside c span after hc hp ∙ sym (outside-append span after hs))
    ∙ sym (outside-append before (span ++ after) hb)
    ∙ sym (resolve-eq-outside (before ++ (span ++ after)))

-- A text in which a part is written backwards between an override (U+202E or U+202D) and its Pop
-- Directional Formatting folds as the text with the part in reading order and without the two marks,
-- whatever follows, if no override stands before the mark or in the part and the part has no such pop.
pub fold_spoofed :
    (u : Unicode) (is_format : ℕ → Bool) (c : ℕ) (before span after : Text)
    → is_override c ≡ true
    → any is_override before ≡ false
    → any is_override span ≡ false
    → any is_pdf span ≡ false
    → fold u is_format (before ++ (c ∷ (onto span [] ++ pdf ∷ after)))
      ≡ fold u is_format (before ++ (span ++ after))
unfolding fold
fold_spoofed u is_format c before span after hc hb hs hp =
    ap (λ v. join_words (fields (fold_runes u is_format true true (map u.to_upper v))))
      (resolve_override c before span after hc hb hs hp)
