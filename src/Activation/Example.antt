-- ===== src/Activation/Example.antt =====
-- A world in which the laws hold that the activation manager relies on.
use watchlist_platform.Base.{
  ℕ, zero, suc, ◌≡◌, refl, sym, subst, ap, ◌∙◌, inl, inr, Bool, true, false, is_empty, ◌++◌, ◌==◌,
  if◌then◌else◌, Bool-cases, arith, List, [], ◌∷◌, Option, none, some,
}
use watchlist_platform.Base.Int.{ℤ, pos, negsuc}
use watchlist_platform.Base.Text.{Text, text}
use watchlist_platform.Activation.Types.{
  CatalogDescriptor, Package, LoadedPolicy, Activation, PendingDocument, ActivateRequest, World,
  WorldLaws, Files, descriptor_schema,
}
use watchlist_platform.Activation.Paths.{IsClean}
use watchlist_platform.Activation.Good.{IsStored, IsNamed, IsSettled}

-- an encoding of lists of texts: each code point after a 1, and a 0 at the end of a text
unfoldable pub put : Text → Text → Text
put [] rest = 0 ∷ rest
put (c ∷ t) rest = 1 ∷ c ∷ put t rest

unfoldable pub push : ℕ → List Text → List Text
push c [] = []
push c (t ∷ ts) = (c ∷ t) ∷ ts

unfoldable pub parse : Text → List Text
unfolding push
parse [] = []
parse (zero ∷ rest) = [] ∷ parse rest
parse (suc n ∷ []) = []
parse (suc n ∷ c ∷ rest) = push c (parse rest)

unfoldable pub encode : List Text → Text
unfolding put
encode [] = []
encode (t ∷ ts) = put t (encode ts)

parse-put : (t rest : Text) → parse (put t rest) ≡ t ∷ parse rest
unfolding parse put push
parse-put [] rest = refl
parse-put (c ∷ t) rest = ap (push c) (parse-put t rest)

parse-encode : (ts : List Text) → parse (encode ts) ≡ ts
unfolding encode parse
parse-encode [] = refl
parse-encode (t ∷ ts) = parse-put t (encode ts) ∙ ap (λ l. t ∷ l) (parse-encode ts)

abbrev int : ℤ → Text
int (pos n) = 0 ∷ n ∷ []
int (negsuc n) = 1 ∷ n ∷ []

abbrev of_int : Text → ℤ
of_int (zero ∷ n ∷ []) = pos n
of_int (suc k ∷ n ∷ []) = negsuc n
of_int _ = pos 0

of_int-int : (z : ℤ) → of_int (int z) ≡ z
of_int-int (pos n) = refl
of_int-int (negsuc n) = refl

unfoldable pub fields_of : Activation → List Text
fields_of a =
    a.schema_version
    ∷ a.activation_id
    ∷ a.previous_activation_id
    ∷ a.catalog.schema_version
    ∷ a.catalog.provider
    ∷ a.catalog.catalog_id
    ∷ a.catalog.component_id
    ∷ a.catalog.component_version
    ∷ a.catalog.catalog_package_path
    ∷ a.catalog.catalog_package_sha256
    ∷ int a.catalog.record_count
    ∷ a.catalog.normalization_profile
    ∷ int a.catalog.retrievable_candidate_count
    ∷ a.catalog.retrievable_candidate_ids_sha256
    ∷ a.projection.package_path
    ∷ a.projection.package_sha256
    ∷ a.projection.projections_sha256
    ∷ int a.projection.projection_count
    ∷ a.projection.candidate_ids_sha256
    ∷ a.policy.path
    ∷ a.policy.policy_id
    ∷ a.policy.policy_version
    ∷ a.policy.policy_sha256
    ∷ a.policy.normalization_profile
    ∷ []

unfoldable pub of_fields : List Text → Option Activation
of_fields
      (a ∷ b ∷ c ∷ d ∷ e ∷ f ∷ g ∷ h ∷ i ∷ j ∷ k ∷ l ∷ m ∷ n ∷ o ∷ p ∷ q ∷ r ∷ s ∷ t ∷ u ∷ v ∷ x ∷ y
        ∷ []) =
    some (record {
      schema_version = a;
      activation_id = b;
      previous_activation_id = c;
      catalog = record {
        schema_version = d;
        provider = e;
        catalog_id = f;
        component_id = g;
        component_version = h;
        catalog_package_path = i;
        catalog_package_sha256 = j;
        record_count = of_int k;
        normalization_profile = l;
        retrievable_candidate_count = of_int m;
        retrievable_candidate_ids_sha256 = n;
      };
      projection = record {
        package_path = o;
        package_sha256 = p;
        projections_sha256 = q;
        projection_count = of_int r;
        candidate_ids_sha256 = s;
      };
      policy = record {
        path = t;
        policy_id = u;
        policy_version = v;
        policy_sha256 = x;
        normalization_profile = y;
      };
    })
of_fields _ = none

of_fields-fields_of : (a : Activation) → of_fields (fields_of a) ≡ some a
unfolding of_fields fields_of
of_fields-fields_of a =
    rw
      (
        of_int-int a.catalog.record_count,
        of_int-int a.catalog.retrievable_candidate_count,
        of_int-int a.projection.projection_count,
      )
      refl

unfoldable pub of_pending : List Text → Option PendingDocument
of_pending (a ∷ b ∷ c ∷ []) =
    some (record { schema_version = a; target_activation_id = b; previous_activation_id = c })
of_pending _ = none

some-same : {a b : Text} → ◌≡◌ {A = Option Text} (some a) (some b) → b ≡ a
some-same h = cc

abbrev digest : Text
digest = text "0123456789abcdef0123456789abcdef0123456789abcdef0123456789abcdef"

abbrev pub descriptor : CatalogDescriptor
descriptor = record {
  schema_version = descriptor_schema;
  provider = text "ofac";
  catalog_id = text "c";
  component_id = text "i";
  component_version = text "1";
  catalog_package_path = text "c.mmap";
  catalog_package_sha256 = digest;
  record_count = pos 0;
  normalization_profile = text "n";
  retrievable_candidate_count = pos 0;
  retrievable_candidate_ids_sha256 = digest;
}

-- A path is absolute if it begins with a slash; one relative to the state directory begins with a zero.
unfoldable pub begins_with_slash : Text → Bool
begins_with_slash [] = false
begins_with_slash (c ∷ path) = c == b'/'

unfoldable pub joined : Text → Text → Text
joined base (zero ∷ path) = b'/' ∷ path
joined base path = base ++ path

unfoldable pub below_state : Text → Option Text
below_state [] = none
below_state (c ∷ path) = some (0 ∷ path)

unfoldable pub rooted : Text → Text
unfolding begins_with_slash
rooted path = if begins_with_slash path then path else b'/' ∷ path

rooted-begins_with_slash : (path : Text) → begins_with_slash (rooted path) ≡ true
unfolding rooted begins_with_slash
rooted-begins_with_slash path = elim (Bool-cases (begins_with_slash path)) [
  | inl h ↦ rw h h
  | inr h ↦ rw h refl
]

joined-begins_with_slash :
    (base path : Text) → begins_with_slash base ≡ true → begins_with_slash (joined base path) ≡ true
unfolding joined begins_with_slash
joined-begins_with_slash [] path h = cc
joined-begins_with_slash (c ∷ base) [] h = h
joined-begins_with_slash (c ∷ base) (zero ∷ path) h = refl
joined-begins_with_slash (c ∷ base) (suc n ∷ path) h = h

below_state-relative :
    (path found : Text)
    → below_state path ≡ some found
    → (begins_with_slash found ≡ false) × (is_empty found ≡ false)
unfolding below_state begins_with_slash
below_state-relative [] found h = cc
below_state-relative (c ∷ path) found h =
    subst (λ (p : Text). (begins_with_slash p ≡ false) × (is_empty p ≡ false)) (some-same (sym h))
      (refl, refl)

joined-below_state :
    (base path found : Text)
    → begins_with_slash path ≡ true
    → below_state path ≡ some found
    → joined base found ≡ path
unfolding below_state joined begins_with_slash
joined-below_state base [] found s h = cc
joined-below_state base (c ∷ path) found s h =
    let same : b'/' ≡ c = ground (arith, s) in
    subst (λ p. joined base p ≡ c ∷ path) (some-same (sym h)) (ap (λ d. d ∷ path) same)

abbrev pub projections : Package
projections = record {
  manifest = record {
    provider = text "ofac";
    catalog_id = text "c";
    component_id = text "i";
    component_version = text "1";
    catalog_package_sha256 = digest;
    source_record_count = pos 0;
    projection_count = pos 0;
    projections_sha256 = [];
    candidate_ids_sha256 = digest;
    normalization_profile = text "n";
  };
  package_sha256 = [];
  candidates = [];
}

abbrev pub policy : LoadedPolicy
policy = record {
  policy_id = [];
  policy_version = [];
  normalization_profile = text "n";
  sha256 = [];
}

unfoldable pub world : World
unfolding parse encode fields_of of_fields of_pending rooted begins_with_slash joined below_state
world = record {
  state_directory = text "/state";
  read_descriptor = λ path. some descriptor;
  load_package = λ path. some projections;
  load_policy = λ path. some policy;
  read_file = λ path. some [];
  sha256_hex = λ raw. digest;
  absolute = λ path. some (rooted path);
  is_absolute = begins_with_slash;
  clean = λ path. path;
  join = joined;
  dir = λ path. path;
  relative = λ base path. below_state path;
  marshal = λ a. encode (fields_of a);
  decode = λ raw. of_fields (parse raw);
  marshal_pending =
      λ p. encode (p.schema_version ∷ p.target_activation_id ∷ p.previous_activation_id ∷ []);
  decode_pending = λ raw. of_pending (parse raw);
}

pub world_laws : WorldLaws world
unfolding world of_pending
world_laws = record {
  decode_marshal = λ a. ap of_fields (parse-encode (fields_of a)) ∙ of_fields-fields_of a;
  decode_marshal_pending = λ p.
      ap of_pending
        (parse-encode (p.schema_version ∷ p.target_activation_id ∷ p.previous_activation_id ∷ []));
  absolute_is_absolute = λ path found h.
      subst (λ p. begins_with_slash p ≡ true) (some-same (sym h)) (rooted-begins_with_slash path);
  absolute_clean = λ path found h. refl;
  clean_clean = λ path. refl;
  join_absolute = λ path below h. joined-begins_with_slash path below h;
  relative_not_absolute = λ path found h r. below_state-relative path found r;
  clean-join-relative = λ path found h r. joined-below_state (text "/state") path found h r;
}

abbrev pub empty_directory : Files
empty_directory = record { activations = λ id. none; active = none; pending = none }

pub empty_directory-IsSettled : IsSettled world world_laws empty_directory
unfolding IsSettled IsStored IsNamed
empty_directory-IsSettled = ((λ id raw h. cc), (([], (none, inl (refl, (refl, refl)))), refl))

abbrev pub request : ActivateRequest
request = record {
  activation_id = text "a1";
  catalog_descriptor_path = text "d";
  projection_package_path = text "p";
  scoring_policy_path = text "s";
}

pub world-IsClean : (call : ActivateRequest) → IsClean world call
unfolding IsClean world
world-IsClean call path d h r a = refl
