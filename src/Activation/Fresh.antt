-- ===== src/Activation/Fresh.antt =====
-- The activation that Activate writes passes the validation that Recover, Rollback and LoadActive make.
use watchlist_platform.Base.{◌≡◌, refl, ap, subst, ◌∙◌, true, some}
use watchlist_platform.Base.Int.{ℤ, eq_ℤ, eq_ℤ_iff}
use watchlist_platform.Base.Result.{ok, require, bind_ok, require-eq-ok, ok-injective}
use watchlist_platform.Base.Text.{Text, eq_text_refl}
use watchlist_platform.Activation.Types.{
  CatalogDescriptor, Package, LoadedPolicy, Activation, ActivateRequest, World, WorldLaws, Files,
  activation_schema,
}
use watchlist_platform.Activation.Validate.{
  valid_id, loaded, relocated, load_catalog_descriptor, resolve_path, validate_tuple,
  package_matches, policy_matches, resolve_activation_paths, validate_resolved, validate_activation,
  invalid_id,
}
use watchlist_platform.Activation.Manager.{
  Plan, Tuple, absolute_path, absolute_request, load_tuple, bind_paths, plan_writes,
  relative_to_state_directory, new_activation, previous_id, activate,
}
use watchlist_platform.Activation.Paths.{
  loaded-eq-ok, IsClean, IsPlain, absolute_path-IsPlain, relative_to_state_directory-resolve,
  load_catalog_descriptor-IsPlain,
}

eq_ℤ_refl : (a : ℤ) → eq_ℤ a a ≡ true
eq_ℤ_refl a = (eq_ℤ_iff a a).1 refl

module _ (w : World) (laws : WorldLaws w) where
  package_matches_refl :
      (id previous : Text) (d : CatalogDescriptor) (pkg : Package) (policy : LoadedPolicy)
      (cp pp lp : Text)
      → package_matches pkg (new_activation w id previous d pkg policy cp pp lp).projection ≡ true
  unfolding package_matches
  package_matches_refl id previous d pkg policy cp pp lp =
      rw
        (
          eq_text_refl pkg.package_sha256,
          eq_text_refl pkg.manifest.projections_sha256,
          eq_ℤ_refl pkg.manifest.projection_count,
          eq_text_refl pkg.manifest.candidate_ids_sha256,
        )
        refl

  policy_matches_refl :
      (id previous : Text) (d : CatalogDescriptor) (pkg : Package) (policy : LoadedPolicy)
      (cp pp lp : Text)
      → policy_matches policy (new_activation w id previous d pkg policy cp pp lp).policy ≡ true
  unfolding policy_matches
  policy_matches_refl id previous d pkg policy cp pp lp =
      rw
        (
          eq_text_refl policy.sha256,
          eq_text_refl policy.policy_id,
          eq_text_refl policy.policy_version,
          eq_text_refl policy.normalization_profile,
        )
        refl

  validate_resolved-ok :
      (a : Activation) (pkg : Package) (policy : LoadedPolicy) {u : Unit {0}}
      → w.load_package a.projection.package_path ≡ some pkg
      → w.load_policy a.policy.path ≡ some policy
      → validate_tuple w a.catalog pkg policy ≡ ok u
      → package_matches pkg a.projection ≡ true
      → policy_matches policy a.policy ≡ true
      → validate_resolved w a
        ≡ ok (record { activation = a; projection_package = pkg; policy = policy })
  unfolding validate_resolved
  validate_resolved-ok a pkg policy p l t m n = rw (p, l, t, m, n) refl

  new_activation-valid :
      (id previous : Text) (d : CatalogDescriptor) (pkg : Package) (policy : LoadedPolicy)
      (cp pp lp package_path policy_path : Text) {u : Unit {0}}
      → valid_id id ≡ true
      → w.load_package package_path ≡ some pkg
      → w.load_policy policy_path ≡ some policy
      → validate_tuple w d pkg policy ≡ ok u
      → resolve_path w cp ≡ d.catalog_package_path
      → resolve_path w pp ≡ package_path
      → resolve_path w lp ≡ policy_path
      → let a = new_activation w id previous d pkg policy cp pp lp in
        validate_activation w a
        ≡ ok (record {
          activation = resolve_activation_paths w a;
          projection_package = pkg;
          policy = policy;
        })
  unfolding validate_activation resolve_activation_paths
  new_activation-valid id previous d pkg policy cp pp lp package_path policy_path v p l t rc rp rl =
      let a = new_activation w id previous d pkg policy cp pp lp in
      let tuple : validate_tuple w (resolve_activation_paths w a).catalog pkg policy ≡ ok tt =
        ap (λ path. validate_tuple w (relocated d path) pkg policy) rc ∙ t in
      let resolved =
        validate_resolved-ok (resolve_activation_paths w a) pkg policy (ap w.load_package rp ∙ p)
          (ap w.load_policy rl ∙ l) tuple
          (package_matches_refl id previous d pkg policy cp (resolve_path w pp) lp)
          (policy_matches_refl id previous d pkg policy cp pp (resolve_path w lp)) in
      rw (eq_text_refl activation_schema, v) resolved

  load_tuple_inv :
      (request : ActivateRequest) {t : Tuple}
      → load_tuple w request ≡ ok t
      → (load_catalog_descriptor w request.catalog_descriptor_path ≡ ok t.descriptor)
        × ((w.load_package request.projection_package_path ≡ some t.pkg)
            × ((w.load_policy request.scoring_policy_path ≡ some t.policy)
                × (validate_tuple w t.descriptor t.pkg t.policy ≡ ok tt)))
  unfolding load_tuple
  load_tuple_inv request h =
      let (d, e, h₁) = bind_ok (load_catalog_descriptor w request.catalog_descriptor_path) _ h in
      let (pkg, p, h₂) = bind_ok (loaded (w.load_package request.projection_package_path)) _ h₁ in
      let (policy, l, h₃) = bind_ok (loaded (w.load_policy request.scoring_policy_path)) _ h₂ in
      let (_, t, h₄) = bind_ok (validate_tuple w d pkg policy) _ h₃ in
      subst
        (λ (z : Tuple).
          (load_catalog_descriptor w request.catalog_descriptor_path ≡ ok z.descriptor)
          × ((w.load_package request.projection_package_path ≡ some z.pkg)
              × ((w.load_policy request.scoring_policy_path ≡ some z.policy)
                  × (validate_tuple w z.descriptor z.pkg z.policy ≡ ok tt))))
        (ok-injective h₄)
        (
          e,
          (
            loaded-eq-ok (w.load_package request.projection_package_path) p,
            (loaded-eq-ok (w.load_policy request.scoring_policy_path) l, t),
          ),
        )

  -- what is known of the paths of a request that were made absolute
  unfoldable IsAbsolute : ActivateRequest → ActivateRequest → Type 0
  IsAbsolute call request =
      (request.activation_id ≡ call.activation_id)
      × ((w.absolute call.catalog_descriptor_path ≡ some request.catalog_descriptor_path)
          × (IsPlain w laws request.catalog_descriptor_path
              × (IsPlain w laws request.projection_package_path
                  × IsPlain w laws request.scoring_policy_path)))

  absolute_request_inv :
      (call : ActivateRequest) {request : ActivateRequest}
      → absolute_request w call ≡ ok request
      → IsAbsolute call request
  unfolding absolute_request IsAbsolute
  absolute_request_inv call h =
      let (d, hd, h₁) = bind_ok (absolute_path w call.catalog_descriptor_path) _ h in
      let (p, hp, h₂) = bind_ok (absolute_path w call.projection_package_path) _ h₁ in
      let (l, hl, h₃) = bind_ok (absolute_path w call.scoring_policy_path) _ h₂ in
      let (is, plain) = absolute_path-IsPlain w laws call.catalog_descriptor_path _ refl hd in
      let (_, plain_package) =
        absolute_path-IsPlain w laws call.projection_package_path _ refl hp in
      let (_, plain_policy) = absolute_path-IsPlain w laws call.scoring_policy_path _ refl hl in
      subst (IsAbsolute call) (ok-injective h₃) (refl, (is, (plain, (plain_package, plain_policy))))

  -- a snapshot of an activation is what its validation returns
  unfoldable pub IsChecked : Activation → Tuple → Type 0
  IsChecked a t =
      validate_activation w a
      ≡ ok (record {
        activation = resolve_activation_paths w a;
        projection_package = t.pkg;
        policy = t.policy;
      })

  bind_paths_inv :
      (call request : ActivateRequest) (previous : Text) (t : Tuple) {a : Activation}
      → valid_id call.activation_id ≡ true
      → IsClean w call
      → IsAbsolute call request
      → load_tuple w request ≡ ok t
      → bind_paths w request previous t ≡ ok a
      → (valid_id a.activation_id ≡ true) × IsChecked a t
  unfolding bind_paths IsChecked IsAbsolute IsClean
  bind_paths_inv call request previous t v clean (id, (is, (plain, (pkg, policy)))) loads h =
      let (e, (p, (l, c))) = load_tuple_inv request loads in
      let (cp, rc, h₁) =
        bind_ok (relative_to_state_directory w t.descriptor.catalog_package_path) _ h in
      let (pp, rp, h₂) =
        bind_ok (relative_to_state_directory w request.projection_package_path) _ h₁ in
      let (lp, rl, h₃) = bind_ok (relative_to_state_directory w request.scoring_policy_path) _ h₂ in
      let catalog =
        load_catalog_descriptor-IsPlain w laws request.catalog_descriptor_path plain.0
          (λ d. clean request.catalog_descriptor_path d is) e in
      let valid = ap valid_id id ∙ v in
      let checked =
        new_activation-valid request.activation_id previous t.descriptor t.pkg t.policy cp pp lp
          request.projection_package_path request.scoring_policy_path valid p l c
          (relative_to_state_directory-resolve w laws t.descriptor.catalog_package_path catalog rc)
          (relative_to_state_directory-resolve w laws request.projection_package_path pkg rp)
          (relative_to_state_directory-resolve w laws request.scoring_policy_path policy rl) in
      subst (λ z. (valid_id z.activation_id ≡ true) × IsChecked z t) (ok-injective h₃)
        (valid, checked)

  -- what a call of Activate that returns has read and written
  pub activate_inv :
      (f : Files) (call : ActivateRequest) {plan : Plan}
      → IsClean w call
      → activate w f call ≡ ok plan
      → (previous : Text) × ((t : Tuple) × ((a : Activation) × ((previous_id w f.active
                ≡ ok previous)
              × ((valid_id a.activation_id ≡ true)
                  × (IsChecked a t × (plan_writes w f previous t a ≡ ok plan))))))
  unfolding activate
  activate_inv f call clean h =
      let (_, v, h₁) = bind_ok (require (valid_id call.activation_id) invalid_id) _ h in
      let (request, ar, h₂) = bind_ok (absolute_request w call) _ h₁ in
      let (t, l, h₃) = bind_ok (load_tuple w request) _ h₂ in
      let (previous, q, h₄) = bind_ok (previous_id w f.active) _ h₃ in
      let (a, b, h₅) = bind_ok (bind_paths w request previous t) _ h₄ in
      let valid = require-eq-ok (valid_id call.activation_id) invalid_id v in
      let (i, c) =
        bind_paths_inv call request previous t valid clean (absolute_request_inv call ar) l b in
      (previous, (t, (a, (q, (i, (c, h₅))))))
