-- ===== src/Activation/Promote.antt =====
-- PromoteExisting moves the pointer to a stored activation atomically.
use watchlist_platform.Base.{
  ℕ, ◌≡◌, refl, sym, ap, subst, ◌∙◌, inr, ◌&&◌, ◌||◌, take, is_empty, false, Option, none, some,
}
use watchlist_platform.Base.Result.{ok, require, bind_ok, require-eq-ok, ok-injective}
use watchlist_platform.Base.Text.{Text, eq_text}
use watchlist_platform.Activation.Types.{
  Activation, Snapshot, World, WorldLaws, Files, activation_schema, run,
}
use watchlist_platform.Activation.Validate.{
  invalid_id, invalid_document, loaded, cas_mismatch, not_linked, valid_id, validate_tuple,
  package_matches, policy_matches, projection_mismatch, policy_mismatch, resolve_activation_paths,
  validate_resolved, validate_activation,
}
use watchlist_platform.Activation.Manager.{
  Plan, load_document, load_active, load_activation, switch, promote_existing,
}
use watchlist_platform.Activation.Good.{
  IsStored, IsNamed, IsSettled, load_document-ok, named_document,
}
use watchlist_platform.Activation.Crash.{Interrupted, Settles}
use watchlist_platform.Activation.Before.{valid_id-nonempty}
use watchlist_platform.Activation.Back.{no_document, document_of, switch-Settles}

module _ (w : World) (laws : WorldLaws w) where
  validate_resolved-same :
      (a : Activation) {s : Snapshot} → validate_resolved w a ≡ ok s → s.activation ≡ a
  unfolding validate_resolved
  validate_resolved-same a h =
      let (pkg, _, h₁) = bind_ok (loaded (w.load_package a.projection.package_path)) _ h in
      let (policy, _, h₂) = bind_ok (loaded (w.load_policy a.policy.path)) _ h₁ in
      let (_, _, h₃) = bind_ok (validate_tuple w a.catalog pkg policy) _ h₂ in
      let (_, _, h₄) =
        bind_ok (require (package_matches pkg a.projection) projection_mismatch) _ h₃ in
      let (_, _, h₅) = bind_ok (require (policy_matches policy a.policy) policy_mismatch) _ h₄ in
      ap (λ (z : Snapshot). z.activation) (sym (ok-injective h₅))

  -- the activation of a snapshot has the identifier of the document
  snapshot_id :
      (a : Activation) {s : Snapshot}
      → validate_activation w a ≡ ok s
      → s.activation.activation_id ≡ a.activation_id
  unfolding validate_activation resolve_activation_paths
  snapshot_id a h =
      let (_, _, h₁) =
        bind_ok
          (require (eq_text a.schema_version activation_schema && valid_id a.activation_id)
            invalid_document)
          _ h in
      ap (λ (z : Activation). z.activation_id)
        (validate_resolved-same (resolve_activation_paths w a) h₁)

  target-IsNamed :
      (f : Files) (id : Text) (found : Option Text) (p q : Activation)
      → IsStored w laws f
      → is_empty id ≡ false
      → f.activations id ≡ found
      → load_document w found ≡ ok p
      → q.activation_id ≡ p.activation_id
      → IsNamed w laws f q.activation_id (some (w.marshal q)) found
  unfolding IsNamed
  target-IsNamed f id none p q st ne held h same = absurd (no_document w laws h)
  target-IsNamed f id (some raw) p q st ne held h same =
      let is = same ∙ (document_of w laws f id raw st held h).0 in
      let loads = load_document-ok w laws (w.marshal q) q refl in
      inr (
        subst (λ z. is_empty z ≡ false) (sym is) ne,
        ((q, (loads, refl)), (raw, (refl, ap f.activations is ∙ held))),
      )

  -- PromoteExisting is atomic. Let it start in a settled state: nothing is pending, each activation
  -- document is stored under its identifier and valid, and there is no active document or one that
  -- decodes to an activation with an identifier under which a document is stored. If it is cut short
  -- after any number of its changes to the files, and Recover too any number of times, then the next
  -- call of Recover returns and leaves a settled state, in which the active document is the one from
  -- before, the stored document of the activation which that one names, or the one that PromoteExisting
  -- writes.
  pub promote_existing-crash :
      (f : Files) (id expected : Text) {plan : Plan}
      → IsSettled w laws f
      → promote_existing w f id expected ≡ ok plan
      → (k : ℕ) (g : Files) → Interrupted w (run (take k plan.effects) f) g
      → Settles w laws f.active
          (named_document w laws f)
          (some (w.marshal plan.snapshot.activation))
          g
  unfolding IsSettled promote_existing load_active load_activation
  promote_existing-crash f id expected {plan} (st, ((name_id, (d, name)), pending)) h k g i =
      let (current, hc, h₁) = bind_ok (load_active w f) _ h in
      let (b, hb, vb) = bind_ok (load_document w f.active) _ hc in
      let (_, _, h₂) =
        bind_ok (require (eq_text current.activation.activation_id expected) cas_mismatch) _ h₁ in
      let (target, ht, h₃) = bind_ok (load_activation w f id) _ h₂ in
      let (_, v, ht₁) = bind_ok (require (valid_id id) invalid_id) _ ht in
      let (p, hp, vp) = bind_ok (load_document w (f.activations id)) _ ht₁ in
      let (_, _, h₄) =
        bind_ok
          (require
            (eq_text target.activation.previous_activation_id expected
              || eq_text id current.activation.previous_activation_id)
            not_linked)
          _ h₃ in
      let q = target.activation in
      let new =
        target-IsNamed f id (f.activations id) p q st
          (valid_id-nonempty id (require-eq-ok (valid_id id) invalid_id v)) refl hp
          (snapshot_id p vp) in
      let effects : plan.effects ≡ switch w q.activation_id b.activation_id q =
        ap (λ (z : Plan). z.effects) (sym (ok-injective h₄))
        ∙ ap (λ z. switch w q.activation_id z q) (snapshot_id b vb) in
      subst
        (λ (z : Plan).
          Settles w laws f.active (named_document w laws f) (some (w.marshal z.snapshot.activation))
            g)
        (ok-injective h₄)
        (switch-Settles w laws f name_id d b q (f.activations id) k g st name hb new pending
          (subst (λ es. Interrupted w (run (take k es) f) g) effects i))
