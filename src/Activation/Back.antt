-- ===== src/Activation/Back.antt =====
-- Rollback moves the pointer to the previous activation atomically.
use watchlist_platform.Base.{
  ℕ, ◌≡◌, refl, sym, ap, subst, ◌∙◌, inl, inr, Bool, true, false, not, take, is_empty, Option, none,
  some,
}
use watchlist_platform.Base.Result.{ok, require, bind_ok, require-eq-ok, ok-injective}
use watchlist_platform.Base.Text.{Text}
use watchlist_platform.Activation.Types.{Activation, World, WorldLaws, Files, run}
use watchlist_platform.Activation.Validate.{no_previous, validate_activation}
use watchlist_platform.Activation.Manager.{Plan, load_document, switch, rollback}
use watchlist_platform.Activation.Good.{
  IsStored, IsNamed, IsSettled, load_document-ok, named_document,
}
use watchlist_platform.Activation.Before.{named_document-IsNamed}
use watchlist_platform.Activation.Crash.{
  Interrupted, Settles, IsSwitching-Interrupted, IsSwitching-Settles, switch-IsSwitching,
}

module _ (w : World) (laws : WorldLaws w) where
  pub no_document : {a : Activation} → load_document w none ≡ ok a → ⊥
  unfolding load_document
  no_document h = cc

  -- a stored document is that of the activation which it decodes to
  pub document_of :
      (f : Files) (id raw : Text) {a : Activation}
      → IsStored w laws f
      → f.activations id ≡ some raw
      → load_document w (some raw) ≡ ok a
      → (a.activation_id ≡ id) × (raw ≡ w.marshal a)
  unfolding IsStored
  document_of f id raw st held h =
      let (b, (m, (i, _))) = st id raw held in
      let same = ok-injective (sym (load_document-ok w laws raw b m) ∙ h) in
      (ap (λ z. z.activation_id) (sym same) ∙ i, m ∙ ap w.marshal same)

  pub active-IsNamed :
      (f : Files) (id : Text) (document : Option Text) (a : Activation)
      → IsNamed w laws f id f.active document
      → load_document w f.active ≡ ok a
      → IsNamed w laws f a.activation_id f.active document
  unfolding IsNamed
  active-IsNamed f id document a (inl (e, (n, b))) h =
      absurd (no_document (subst (λ o. load_document w o ≡ ok a) n h))
  active-IsNamed f id document a (inr (e, ((b, (l, i)), rest))) h =
      let same = sym i ∙ ap (λ (z : Activation). z.activation_id) (ok-injective (sym l ∙ h)) in
      subst (λ z. IsNamed w laws f z f.active document) same (inr (e, ((b, (l, i)), rest)))

  found-IsNamed :
      (f : Files) (id : Text) (found : Option Text) (p : Activation)
      → IsStored w laws f
      → is_empty id ≡ false
      → f.activations id ≡ found
      → load_document w found ≡ ok p
      → IsNamed w laws f p.activation_id (some (w.marshal p)) (some (w.marshal p))
        × (found ≡ some (w.marshal p))
  unfolding IsNamed
  found-IsNamed f id none p st ne held h = absurd (no_document h)
  found-IsNamed f id (some raw) p st ne held h =
      let (same, m) = document_of f id raw st held h in
      let loads = load_document-ok w laws (w.marshal p) p refl in
      (
        inr (
          subst (λ z. is_empty z ≡ false) (sym same) ne,
          ((p, (loads, refl)), (w.marshal p, (refl, ap f.activations same ∙ held ∙ ap some m))),
        ),
        ap some m,
      )

  -- what a switch away from the active activation leaves, cut short and recovered
  pub switch-Settles :
      (f : Files) (id : Text) (document : Option Text) (b p : Activation) (target : Option Text)
      (k : ℕ) (g : Files)
      → IsStored w laws f
      → IsNamed w laws f id f.active document
      → load_document w f.active ≡ ok b
      → IsNamed w laws f p.activation_id (some (w.marshal p)) target
      → f.pending ≡ none
      → Interrupted w (run (take k (switch w p.activation_id b.activation_id p)) f) g
      → Settles w laws f.active (named_document w laws f) (some (w.marshal p)) g
  switch-Settles f id document b p target k g st name active new pending i =
      let stored = named_document w laws f in
      let named =
        subst (IsNamed w laws f id f.active)
          (sym (named_document-IsNamed w laws f id document name)) name in
      let switching =
        switch-IsSwitching w laws f b.activation_id stored p.activation_id target p k st
          (active-IsNamed f id stored b named active) new pending in
      IsSwitching-Settles w laws b.activation_id f.active stored p.activation_id
        (some (w.marshal p)) g
        (IsSwitching-Interrupted w laws b.activation_id f.active stored p.activation_id
          (some (w.marshal p)) switching i)

  not-true : (b : Bool) → not b ≡ true → b ≡ false
  not-true true h = cc
  not-true false h = refl

  -- Rollback is atomic. Let it start in a settled state: nothing is pending, each activation document is
  -- stored under its identifier and valid, and there is no active document or one that decodes to an
  -- activation with an identifier under which a document is stored. If it is cut short after any number
  -- of its changes to the files, and Recover too any number of times, then the next call of Recover
  -- returns and leaves a settled state, in which the active document is the one from before, the stored
  -- document of the activation which that one names, or that of the previous activation.
  pub rollback-crash :
      (f : Files) (a : Activation) {plan : Plan}
      → IsSettled w laws f
      → load_document w f.active ≡ ok a
      → rollback w f ≡ ok plan
      → (k : ℕ) (g : Files) → Interrupted w (run (take k plan.effects) f) g
      → Settles w laws f.active (named_document w laws f) (f.activations a.previous_activation_id) g
  unfolding IsSettled rollback
  rollback-crash f a {plan} (st, ((id, (d, name)), pending)) active h k g i =
      let (b, hb, h₁) = bind_ok (load_document w f.active) _ h in
      let same : b ≡ a = ok-injective (sym hb ∙ active) in
      let (_, r, h₂) =
        bind_ok (require (not (is_empty b.previous_activation_id)) no_previous) _ h₁ in
      let (p, hp, h₃) = bind_ok (load_document w (f.activations b.previous_activation_id)) _ h₂ in
      let (s, v, h₄) = bind_ok (validate_activation w p) _ h₃ in
      let ne =
        not-true (is_empty b.previous_activation_id)
          (require-eq-ok (not (is_empty b.previous_activation_id)) no_previous r) in
      let (target, found) =
        found-IsNamed f b.previous_activation_id (f.activations b.previous_activation_id) p st ne
          refl hp in
      let effects : plan.effects ≡ switch w p.activation_id b.activation_id p =
        ap (λ z. z.effects) (sym (ok-injective h₄)) in
      subst
        (λ z.
          Settles w laws f.active (named_document w laws f) (f.activations z.previous_activation_id)
            g)
        same
        (subst (λ o. Settles w laws f.active (named_document w laws f) o g) (sym found)
          (switch-Settles f id d b p (some (w.marshal p)) k g st name hb target pending
            (subst (λ es. Interrupted w (run (take k es) f) g) effects i)))
