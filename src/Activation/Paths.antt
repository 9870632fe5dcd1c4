-- ===== src/Activation/Paths.antt =====
-- The paths of an activation: what is made relative to the state directory is resolved to the same path.
use watchlist_platform.Base.{
  ◌≡◌, refl, sym, ap, subst, ◌∙◌, inl, inr, true, false, not, ◌&&◌, is_empty, [], ◌∷◌, Option, none,
  some, if◌then◌else◌, Bool-cases, arith,
}
use watchlist_platform.Base.Result.{ok, require, bind_ok, require-eq-ok, ok-injective}
use watchlist_platform.Base.Text.{Text}
use watchlist_platform.Activation.Types.{CatalogDescriptor, ActivateRequest, World, WorldLaws}
use watchlist_platform.Activation.Validate.{
  loaded, load_failed, relocated, placed, valid_catalog_descriptor, catalog_file_valid,
  load_catalog_descriptor, resolve_path,
}
use watchlist_platform.Activation.Manager.{
  absolute_path, relative_path, relative_to_state_directory,
}

pub loaded-eq-ok : {A : Type 0} (o : Option A) {a : A} → loaded o ≡ ok a → o ≡ some a
loaded-eq-ok none h = cc
loaded-eq-ok (some b) h = ap some (ok-injective h)

-- A catalog path that the descriptor of the request gives as an absolute one is clean.
unfoldable pub IsClean : World → ActivateRequest → Type 0
IsClean w request =
    (path : Text) (d : CatalogDescriptor)
    → w.absolute request.catalog_descriptor_path ≡ some path
    → w.read_descriptor path ≡ some d
    → w.is_absolute d.catalog_package_path ≡ true
    → w.clean d.catalog_package_path ≡ d.catalog_package_path

module _ (w : World) (laws : WorldLaws w) where
  -- a path that is absolute and clean
  abbrev pub IsPlain : Text → Type 0
  IsPlain path = (w.is_absolute path ≡ true) × (w.clean path ≡ path)

  pub absolute_path-IsPlain :
      (path : Text) {found : Text} (o : Option Text)
      → w.absolute path ≡ o
      → absolute_path w path ≡ ok found
      → (w.absolute path ≡ some found) × IsPlain found
  absolute_path-IsPlain path none e h = cc
  absolute_path-IsPlain path {found} (some s) e h =
      let same : s ≡ found = cc in
      let is = e ∙ ap some same in
      (is, (laws.absolute_is_absolute path found is, laws.absolute_clean path found is))

  relative_path-resolve :
      (path : Text) {r : Text} (o : Option Text)
      → w.relative w.state_directory path ≡ o
      → IsPlain path
      → relative_path w path ≡ ok r
      → resolve_path w r ≡ path
  unfolding resolve_path
  relative_path-resolve path none e p h = cc
  relative_path-resolve path {r} (some s) e (absolute, clean) h =
      let same : s ≡ r = cc in
      let is = e ∙ ap some same in
      let (n, m) = laws.relative_not_absolute path r absolute is in
      rw (m, n) (laws.clean-join-relative path r absolute is ∙ clean)

  pub relative_to_state_directory-resolve :
      (path : Text) {r : Text}
      → IsPlain path
      → relative_to_state_directory w path ≡ ok r
      → resolve_path w r ≡ path
  unfolding relative_to_state_directory resolve_path
  relative_to_state_directory-resolve [] p h = ap (resolve_path w) (sym (ok-injective h))
  relative_to_state_directory-resolve (c ∷ path) p h =
      relative_path-resolve (c ∷ path) (w.relative w.state_directory (c ∷ path)) refl p h

  -- a path that is not moved is absolute, where the descriptor is valid
  kept_absolute :
      (d : CatalogDescriptor) (path : Text)
      → valid_catalog_descriptor (relocated d path) ≡ true
      → (not (is_empty path) && not (w.is_absolute path)) ≡ false
      → w.is_absolute path ≡ true
  unfolding valid_catalog_descriptor
  kept_absolute d [] v k = cc
  kept_absolute d (x ∷ path) v k = ground arith

  placed-IsPlain :
      (path : Text) (d : CatalogDescriptor)
      → w.is_absolute path ≡ true
      → (w.is_absolute d.catalog_package_path ≡ true
          → w.clean d.catalog_package_path ≡ d.catalog_package_path)
      → valid_catalog_descriptor (placed w path d) ≡ true
      → IsPlain (placed w path d).catalog_package_path
  unfolding placed
  placed-IsPlain path d absolute clean v =
      elim (Bool-cases
        (not (is_empty d.catalog_package_path) && not (w.is_absolute d.catalog_package_path))) [
          | inl k ↦ rw k (
            laws.join_absolute path d.catalog_package_path absolute,
            laws.clean_clean (w.join (w.dir path) d.catalog_package_path),
          )
          | inr k ↦
              let valid : valid_catalog_descriptor d ≡ true =
                subst
                  (λ b.
                    valid_catalog_descriptor (
                      if b
                      then relocated d (w.clean (w.join (w.dir path) d.catalog_package_path))
                      else d)
                    ≡ true)
                  k v in
              let is = kept_absolute d d.catalog_package_path valid k in rw k (is, clean is)
        ]

  pub load_catalog_descriptor-IsPlain :
      (path : Text) {found : CatalogDescriptor}
      → w.is_absolute path ≡ true
      → ((d : CatalogDescriptor)
          → w.read_descriptor path ≡ some d
          → w.is_absolute d.catalog_package_path ≡ true
          → w.clean d.catalog_package_path ≡ d.catalog_package_path)
      → load_catalog_descriptor w path ≡ ok found
      → IsPlain found.catalog_package_path
  unfolding load_catalog_descriptor
  load_catalog_descriptor-IsPlain path absolute clean h =
      let (d, r, h₁) = bind_ok (loaded (w.read_descriptor path)) _ h in
      let (_, v, h₂) =
        bind_ok (require (valid_catalog_descriptor (placed w path d)) load_failed) _ h₁ in
      let (_, _, h₃) =
        bind_ok (require (catalog_file_valid w (placed w path d)) load_failed) _ h₂ in
      let valid = require-eq-ok (valid_catalog_descriptor (placed w path d)) load_failed v in
      subst (λ (z : CatalogDescriptor). IsPlain z.catalog_package_path) (ok-injective h₃)
        (placed-IsPlain path d absolute (clean d (loaded-eq-ok (w.read_descriptor path) r)) valid)
