-- ===== src/Activation/Atomic.antt =====
-- Activate moves the pointer to the active activation atomically.
use watchlist_platform.Base.{
  ℕ, zero, suc, ◌≡◌, refl, sym, ap, subst, ◌∙◌, ◌⊎◌, inl, inr, false, List, [], ◌∷◌, ◌++◌, take,
  is_empty, Option, none, some, if◌then◌else◌, Bool-cases,
}
use watchlist_platform.Base.Result.{Result, err, ok, bind_ok, ok-injective}
use watchlist_platform.Base.Text.{Text, eq_text, eq_text_iff}
use watchlist_platform.Activation.Types.{
  Activation, ActivateRequest, World, WorldLaws, Files, Effect, write_activation, apply, run,
}
use watchlist_platform.Activation.Validate.{
  Failure, different_bytes, validate_activation, resolve_activation_paths,
}
use watchlist_platform.Activation.Manager.{
  Plan, load_active, write_document, switch, plan_writes, activate,
}
use watchlist_platform.Activation.Good.{
  IsValid, IsStored, IsNamed, IsSettled, load_document-ok, named_document,
}
use watchlist_platform.Activation.Paths.{IsClean}
use watchlist_platform.Activation.Fresh.{IsChecked, activate_inv}
use watchlist_platform.Activation.Crash.{
  Interrupted, Settles, IsSwitching-Interrupted, IsSwitching-Settles, IsSwitching-IsSettled,
  switch-IsSwitching,
}
use watchlist_platform.Activation.Before.{
  valid_id-nonempty, previous_id-IsNamed, named_document-IsNamed, stored, IsNamed-new,
  IsNamed-other, IsSettled-Settles,
}

err-ne : {A : Type 0} {e : Failure} {a : A} → ◌≡◌ {A = Result Failure A} (err e) (ok a) → ⊥
err-ne h = cc

module _ (w : World) (laws : WorldLaws w) where
  -- the files before the switch, and after each change of Activate
  Starts : Files → Text → Option Text → Activation → List Effect → Type 0
  Starts f previous document a effects =
      (start : Files) × (IsStored w laws start
        × ((start.active ≡ f.active)
            × (IsNamed w laws start previous start.active document
                × (IsNamed w laws start a.activation_id (some (w.marshal a)) (some (w.marshal a))
                    × ((start.pending ≡ none)
                        × ((run effects f ≡ run (switch w a.activation_id previous a) start)
                            × ((k : ℕ)
                                → (run (take k effects) f ≡ f)
                                  ⊎ ((j : ℕ) × (run (take k effects) f
                                        ≡ run (take j (switch w a.activation_id previous a))
                                            start)))))))))

  there :
      (f : Files) (a : Activation) (existing : Text)
      → is_empty a.activation_id ≡ false
      → f.activations a.activation_id ≡ some existing
      → existing ≡ w.marshal a
      → IsNamed w laws f a.activation_id (some (w.marshal a)) (some (w.marshal a))
  unfolding IsNamed
  there f a existing ne e same = inr (
    ne,
    (
      (a, (load_document-ok w laws (w.marshal a) a refl, refl)),
      (w.marshal a, (refl, e ∙ ap some same)),
    ),
  )

  first_write :
      (f : Files) (previous : Text) (a : Activation) (k : ℕ)
      → let e₀ = write_activation a.activation_id (w.marshal a) in
        let rest = switch w a.activation_id previous a in
        (run (take k (e₀ ∷ rest)) f ≡ f)
        ⊎ ((j : ℕ) × (run (take k (e₀ ∷ rest)) f ≡ run (take j rest) (apply e₀ f)))
  unfolding run
  first_write f previous a zero = inl refl
  first_write f previous a (suc k) = inr (k, refl)

  write_document-Starts :
      (f : Files) (previous : Text) (document : Option Text) (a : Activation) (found : Option Text)
      {written : List Effect}
      → IsStored w laws f
      → IsNamed w laws f previous f.active document
      → f.pending ≡ none
      → is_empty a.activation_id ≡ false
      → IsValid w laws a
      → f.activations a.activation_id ≡ found
      → write_document w a.activation_id (w.marshal a) found ≡ ok written
      → Starts f previous document a (written ++ switch w a.activation_id previous a)
  unfolding Starts write_document run apply
  write_document-Starts f previous document a none {written} st po p ne v e h =
      let e₀ = write_activation a.activation_id (w.marshal a) in
      subst (λ ws. Starts f previous document a (ws ++ switch w a.activation_id previous a))
        (ok-injective h)
        (
          apply e₀ f,
          (
            stored w laws f a st v,
            (
              refl,
              (
                IsNamed-other w laws f a previous f.active document e po,
                (IsNamed-new w laws f a ne, (p, (refl, first_write f previous a))),
              ),
            ),
          ),
        )
  write_document-Starts f previous document a (some existing) {written} st po p ne v e h =
      elim (Bool-cases (eq_text existing (w.marshal a))) [
        | inr q ↦
            let no = sym (ap (λ b. if b then ok [] else err different_bytes) q) ∙ h in
            absurd (err-ne no)
        | inl q ↦
            let same = (eq_text_iff existing (w.marshal a)).0 q in
            let none_written =
              ok-injective (sym (ap (λ b. if b then ok [] else err different_bytes) q) ∙ h) in
            subst (λ ws. Starts f previous document a (ws ++ switch w a.activation_id previous a))
              none_written
              (
                f,
                (st, (refl, (po, (there f a existing ne e same, (p, (refl, λ k. inr (k, refl))))))),
              )
      ]

  activate-Starts :
      (f : Files) (request : ActivateRequest) {plan : Plan}
      → IsSettled w laws f
      → IsClean w request
      → activate w f request ≡ ok plan
      → (previous : Text) × (Starts f previous
            (named_document w laws f)
            plan.snapshot.activation
            plan.effects
          × (validate_activation w plan.snapshot.activation
              ≡ ok (record {
                activation = resolve_activation_paths w plan.snapshot.activation;
                projection_package = plan.snapshot.projection_package;
                policy = plan.snapshot.policy;
              })))
  unfolding IsSettled plan_writes IsValid IsChecked
  activate-Starts f request (st, ((id, (document, name)), p)) clean h =
      let (previous, (t, (a, (q, (v, (c, pw)))))) = activate_inv w laws f request clean h in
      let named =
        subst (IsNamed w laws f id f.active)
          (sym (named_document-IsNamed w laws f id document name)) name in
      let (written, n, e) =
        bind_ok (write_document w a.activation_id (w.marshal a) (f.activations a.activation_id)) _
          pw in
      let start =
        write_document-Starts f previous (named_document w laws f) a (f.activations a.activation_id)
          st (previous_id-IsNamed w laws f id (named_document w laws f) named q) p
          (valid_id-nonempty a.activation_id v) (_, c) refl n in
      (
        previous,
        subst
            (λ z.
              Starts f previous (named_document w laws f) z.snapshot.activation z.effects
              × (validate_activation w z.snapshot.activation
                  ≡ ok (record {
                    activation = resolve_activation_paths w z.snapshot.activation;
                    projection_package = z.snapshot.projection_package;
                    policy = z.snapshot.policy;
                  })))
            (ok-injective e) (start, c),
      )

  -- Activate is atomic. Let it start in a settled state: nothing is pending, each activation document is
  -- stored under its identifier and valid, and there is no active document or one that decodes to an
  -- activation with an identifier under which a document is stored. Let a catalog path that the
  -- descriptor gives as an absolute one be clean. If Activate is cut short after any number of its
  -- changes to the files, and Recover too any number of times, then the next call of Recover returns
  -- and leaves a settled state, in which the active document is the one from before, the stored
  -- document of the activation which that one names, or the one that Activate writes.
  pub activate-crash :
      (f : Files) (request : ActivateRequest) {plan : Plan}
      → IsSettled w laws f
      → IsClean w request
      → activate w f request ≡ ok plan
      → (k : ℕ) (g : Files) → Interrupted w (run (take k plan.effects) f) g
      → Settles w laws f.active
          (named_document w laws f)
          (some (w.marshal plan.snapshot.activation))
          g
  unfolding Starts
  activate-crash f request {plan} settled clean h k g i =
      let document = named_document w laws f in
      let a = plan.snapshot.activation in
      let (previous, ((start, (st, (act, (po, (tn, (p, (_, prefix))))))), _)) =
        activate-Starts f request settled clean h in
      elim (prefix k) [
        | inl e ↦
            IsSettled-Settles w laws f g (some (w.marshal a)) settled
              (subst (λ z. Interrupted w z g) e i)
        | inr (j, e) ↦
            let new = some (w.marshal a) in
            let s =
              switch-IsSwitching w laws start previous document a.activation_id new a j st po tn
                p in
            subst (λ o. Settles w laws o document new g) act
              (IsSwitching-Settles w laws previous start.active document a.activation_id new g (
                IsSwitching-Interrupted w laws previous start.active document a.activation_id new s
                  (subst (λ z. Interrupted w z g) e i)))
      ]

  switch_active :
      (start : Files) (previous : Text) (a : Activation)
      → ((run (switch w a.activation_id previous a) start).active ≡ some (w.marshal a))
        × ((run (switch w a.activation_id previous a) start).pending ≡ none)
  unfolding run apply
  switch_active start previous a = (refl, refl)

  -- Let Activate start in a settled state (nothing pending, each activation document stored under its
  -- identifier and valid, and no active document or one that decodes to an activation with an
  -- identifier under which a document is stored), and let a catalog path that the descriptor gives as
  -- an absolute one be clean. After it has returned the state is settled, and LoadActive returns the
  -- activation that Activate returned, with its paths resolved, and the same package and policy.
  pub activate-load_active :
      (f : Files) (request : ActivateRequest) {plan : Plan}
      → IsSettled w laws f
      → IsClean w request
      → activate w f request ≡ ok plan
      → IsSettled w laws (run plan.effects f)
        × (load_active w (run plan.effects f)
            ≡ ok (record {
              activation = resolve_activation_paths w plan.snapshot.activation;
              projection_package = plan.snapshot.projection_package;
              policy = plan.snapshot.policy;
            }))
  unfolding Starts load_active
  activate-load_active f request {plan} settled clean h =
      let document = named_document w laws f in
      let a = plan.snapshot.activation in
      let (previous, ((start, (st, (_, (po, (tn, (p, (whole, _))))))), valid)) =
        activate-Starts f request settled clean h in
      let (active, pending) = switch_active start previous a in
      let new = some (w.marshal a) in
      let s =
        switch-IsSwitching w laws start previous document a.activation_id new a 3 st po tn p in
      (
        subst (IsSettled w laws) (sym whole) (
            IsSwitching-IsSettled w laws previous start.active document a.activation_id new
              (run (switch w a.activation_id previous a) start) s pending),
        rw (whole, active, load_document-ok w laws (w.marshal a) a refl) valid,
      )
