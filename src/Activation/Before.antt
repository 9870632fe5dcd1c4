-- ===== src/Activation/Before.antt =====
-- The state of the files around the writes of Activate.
use watchlist_platform.Base.{
  ◌≡◌, refl, sym, ap, subst, ◌∙◌, inl, inr, true, false, [], ◌∷◌, is_empty, Option, none, some,
  if◌then◌else◌, Bool-cases,
}
use watchlist_platform.Base.Result.{ok, bind_ok, ok-injective}
use watchlist_platform.Base.Text.{Text, eq_text, eq_text_iff, eq_text_refl}
use watchlist_platform.Activation.Types.{
  Activation, World, WorldLaws, Files, write_activation, apply,
}
use watchlist_platform.Activation.Validate.{valid_id}
use watchlist_platform.Activation.Manager.{previous_id, load_document}
use watchlist_platform.Activation.Good.{
  IsValid, IsStored, IsNamed, IsSettled, IsSwitching, load_document-ok, stored_document,
  named_document,
}
use watchlist_platform.Activation.Crash.{
  Interrupted, Settles, IsSwitching-Interrupted, IsSwitching-Settles,
}

pub valid_id-nonempty : (id : Text) → valid_id id ≡ true → is_empty id ≡ false
unfolding valid_id
valid_id-nonempty [] h = cc
valid_id-nonempty (c ∷ id) h = refl

some-ne-none : {a : Text} → ◌≡◌ {A = Option Text} (some a) none → ⊥
some-ne-none h = cc

pub some-injective : {a b : Text} → ◌≡◌ {A = Option Text} (some a) (some b) → a ≡ b
some-injective h = cc

module _ (w : World) (laws : WorldLaws w) where
  previous_id_loaded :
      (active : Option Text) {a : Activation} {previous : Text}
      → load_document w active ≡ ok a
      → previous_id w active ≡ ok previous
      → a.activation_id ≡ previous
  unfolding previous_id load_document
  previous_id_loaded none l h = cc
  previous_id_loaded (some raw) {a} l h =
      let (b, m, q) = bind_ok (load_document w (some raw)) _ h in
      ap (λ (z : Activation). z.activation_id) (ok-injective (sym l ∙ m)) ∙ ok-injective q

  -- the stored document of a settled state is the one that the active document names
  pub named_document-IsNamed :
      (f : Files) (id : Text) (document : Option Text)
      → IsNamed w laws f id f.active document
      → named_document w laws f ≡ document
  unfolding IsNamed named_document load_document
  named_document-IsNamed f id document (inl (e, (n, b))) =
      ap (λ o. stored_document w laws f (load_document w o)) n ∙ sym b
  named_document-IsNamed f id document (inr (e, ((a, (l, i)), (raw, (b, held))))) =
      ap (stored_document w laws f) l ∙ ap f.activations i ∙ held ∙ sym b

  -- the identifier that Activate reads is that of the active document
  pub previous_id-IsNamed :
      (f : Files) (id : Text) (document : Option Text) {previous : Text}
      → IsNamed w laws f id f.active document
      → previous_id w f.active ≡ ok previous
      → IsNamed w laws f previous f.active document
  unfolding IsNamed previous_id
  previous_id-IsNamed f id document {previous} (inl (e, (n, b))) h =
      let read : previous_id w none ≡ ok previous =
        subst (λ o. previous_id w o ≡ ok previous) n h in
      inl (sym (ok-injective read), (n, b))
  previous_id-IsNamed f id document {previous} (inr (e, ((a, (l, i)), rest))) h =
      let same = sym i ∙ previous_id_loaded f.active l h in
      subst (λ z. IsNamed w laws f z f.active document) same (inr (e, ((a, (l, i)), rest)))

  pub stored :
      (f : Files) (a : Activation)
      → IsStored w laws f
      → IsValid w laws a
      → IsStored w laws (apply (write_activation a.activation_id (w.marshal a)) f)
  unfolding IsStored apply
  stored f a st v id raw h = elim (Bool-cases (eq_text id a.activation_id)) [
    | inl e ↦
        let written : some (w.marshal a) ≡ some raw =
          sym (ap (λ b. if b then some (w.marshal a) else f.activations id) e) ∙ h in
        (a, (sym (some-injective written), (sym ((eq_text_iff id a.activation_id).0 e), v)))
    | inr e ↦ st id raw (sym (ap (λ b. if b then some (w.marshal a) else f.activations id) e) ∙ h)
  ]

  pub IsNamed-new :
      (f : Files) (a : Activation)
      → is_empty a.activation_id ≡ false
      → IsNamed w laws
          (apply (write_activation a.activation_id (w.marshal a)) f)
          a.activation_id
          (some (w.marshal a))
          (some (w.marshal a))
  unfolding IsNamed apply
  IsNamed-new f a h =
      let written =
        ap (λ b. if b then some (w.marshal a) else f.activations a.activation_id)
          (eq_text_refl a.activation_id) in
      inr (
        h,
        ((a, (load_document-ok w laws (w.marshal a) a refl, refl)), (w.marshal a, (refl, written))),
      )

  pub IsNamed-other :
      (f : Files) (a : Activation) (id : Text) (active document : Option Text)
      → f.activations a.activation_id ≡ none
      → IsNamed w laws f id active document
      → IsNamed w laws (apply (write_activation a.activation_id (w.marshal a)) f) id active document
  unfolding IsNamed apply
  IsNamed-other f a id active document n (inl h) = inl h
  IsNamed-other f a id active document n (inr (e, (d, (raw, (o, held))))) =
      elim (Bool-cases (eq_text id a.activation_id)) [
        | inl q ↦
            let none_held : f.activations id ≡ none =
              ap f.activations ((eq_text_iff id a.activation_id).0 q) ∙ n in
            absurd (some-ne-none (sym held ∙ none_held))
        | inr q ↦ inr (
          e,
          (d, (raw, (o, ap (λ b. if b then some (w.marshal a) else f.activations id) q ∙ held))),
        )
      ]

  settled_switching :
      (f : Files) (id : Text) (document : Option Text)
      → IsStored w laws f
      → IsNamed w laws f id f.active document
      → f.pending ≡ none
      → IsSwitching w laws id f.active document id f.active f
  unfolding IsSwitching
  settled_switching f id document st name p = (st, (name, ((document, name), (inl refl, inl p))))

  -- a switch that left the active document alone
  as_before :
      (g : Files) (active document new : Option Text)
      → Settles w laws active document active g
      → Settles w laws active document new g
  unfolding Settles
  as_before g active document new (r, (q, (s, inl a))) = (r, (q, (s, inl a)))
  as_before g active document new (r, (q, (s, inr (inl a)))) = (r, (q, (s, inr (inl a))))
  as_before g active document new (r, (q, (s, inr (inr a)))) = (r, (q, (s, inl a)))

  pub IsSettled-Settles :
      (f g : Files) (new : Option Text)
      → IsSettled w laws f
      → Interrupted w f g
      → Settles w laws f.active (named_document w laws f) new g
  unfolding IsSettled
  IsSettled-Settles f g new (st, ((id, (document, name)), p)) i =
      let h = settled_switching f id document st name p in
      subst (λ o. Settles w laws f.active o new g) (sym (named_document-IsNamed f id document name))
        (as_before g f.active document new (
          IsSwitching-Settles w laws id f.active document id f.active g
            (IsSwitching-Interrupted w laws id f.active document id f.active h i)))
