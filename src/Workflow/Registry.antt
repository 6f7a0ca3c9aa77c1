-- ===== src/Workflow/Registry.antt =====
-- `ComponentRegistry` and `_validate_manifest` of src/devloop/components/contracts.py. The entries
-- are the dict, the latest first; a runner is a value that has a component.
use devloop.Domain.Approval.{ApprovalPolicy}
use devloop.Domain.Execution.{ExecutionProfile, lightweight, full, ExecutionProfileId}
use devloop.Prelude.{
  contains_elim, Distinct, all_unique→Distinct, Memᴰ, all_elim, raise_if-eq-ok, guard-eq-ok, err,
  refl, subst, ok-injective, >>=-eq-ok, inr, ==-refl, ap, ◌∙◌, sym, false≢true, inl, all, is_some,
  Bool-cases, none, map, false, raise_if, ◌∷◌, some, ◌==◌, guard, ok, true, or_raise, ◌>>◌, ◌≡◌,
  find, Bool, Result, Option, List, String, text_same, pair_same, contains, all_unique,
}
use devloop.Workflow.Ports.{ComponentPort, PortDirection, ComponentManifest}

pub data RegistryError : Type 0 where
  bad_schema bad_version bad_distribution bad_hash foreign_policy repeated_profile foreign_profile
        missing_profile repeated_port other_runner already_registered not_registered :
      RegistryError

abbrev direction_value : PortDirection → String
direction_value PortDirection.input = "INPUT"
direction_value PortDirection.output = "OUTPUT"

-- `(port.direction, port.name)`
abbrev pub port_key : ComponentPort → String × String
port_key port = (direction_value port.direction, port.name)

-- `profile_id.value`
abbrev profile_value : ExecutionProfileId → String
profile_value full = "FULL"
profile_value lightweight = "LIGHTWEIGHT"

abbrev owns_policy : String → Option ApprovalPolicy → Bool
owns_policy component_id none = true
owns_policy component_id (some policy) = policy.component_id == component_id

abbrev has_default : List String → Option String → Bool
has_default profile_ids none = true
has_default profile_ids (some profile_id) = contains profile_ids profile_id

-- `_SEMANTIC_VERSION`, `_DISTRIBUTION` and `_SHA256`
pub data ManifestPattern : Type 0 where
  semantic_version distribution_name sha256_hash : ManifestPattern

-- `_validate_manifest`; `full_match` is the method of the compiled patterns.
unfoldable pub validate_manifest :
    (ManifestPattern → String → Bool) → ComponentManifest → Result RegistryError Unit
validate_manifest full_match manifest = do
  guard (manifest.schema == "devloop.step-component/v1") bad_schema
  guard (full_match semantic_version manifest.version) bad_version
  guard (full_match distribution_name manifest.distribution) bad_distribution
  guard (full_match sha256_hash manifest.package_hash) bad_hash
  guard (owns_policy manifest.component_id manifest.approval_policy) foreign_policy
  let profile_ids =
      map (λ (item : ExecutionProfile). profile_value item.profile_id) manifest.execution_profiles
  guard (all_unique profile_ids) repeated_profile
  guard
      (all (λ (item : ExecutionProfile). item.component_id == manifest.component_id)
        manifest.execution_profiles)
      foreign_profile
  guard (has_default profile_ids manifest.default_execution_profile) missing_profile
  guard (all_unique (map port_key manifest.ports)) repeated_port

module _ {R : Type 0} where
  abbrev pub entry_of : List (ComponentManifest × R) → String → Option (ComponentManifest × R)
  entry_of entries id = find (λ (e : ComponentManifest × R). e.0.component_id == id) entries

  -- `ComponentRegistry.resolve`
  unfoldable pub resolve :
      List (ComponentManifest × R) → String → Result RegistryError (ComponentManifest × R)
  resolve entries id = or_raise not_registered (entry_of entries id)

  -- `ComponentRegistry.register`, with the component of a runner.
  unfoldable pub register :
      (ManifestPattern → String → Bool)
      → (R → String)
      → List (ComponentManifest × R)
      → ComponentManifest
      → R
      → Result RegistryError (List (ComponentManifest × R))
  unfolding validate_manifest
  register full_match component_of entries manifest runner = do
    validate_manifest full_match manifest
    guard (manifest.component_id == component_of runner) other_runner
    raise_if (is_some (entry_of entries manifest.component_id)) already_registered
    ok ((manifest, runner) ∷ entries)

is_none_of : {A : Type 0} (found : Option A) → is_some found ≡ false → found ≡ none
is_none_of none h = refl
is_none_of (some a) h = cc

-- A valid manifest: its texts have their patterns, its policy and its profiles are its own, no profile
-- and no port is given twice, and the default profile is one of them.
pub record IsValidManifest (full_match : ManifestPattern → String → Bool)
    (manifest : ComponentManifest) : Type 0 where
  pub version : full_match semantic_version manifest.version ≡ true
  pub distribution : full_match distribution_name manifest.distribution ≡ true
  pub package_hash : full_match sha256_hash manifest.package_hash ≡ true
  pub policy :
      (policy : ApprovalPolicy)
      → manifest.approval_policy ≡ some policy
      → policy.component_id ≡ manifest.component_id
  pub profiles :
      (item : ExecutionProfile)
      → Memᴰ item manifest.execution_profiles
      → item.component_id ≡ manifest.component_id
  pub distinct_profiles :
      Distinct (
        map
          (λ (item : ExecutionProfile). profile_value item.profile_id)
          manifest.execution_profiles)
  pub default_profile :
      (profile_id : String)
      → manifest.default_execution_profile ≡ some profile_id
      → Memᴰ profile_id (
          map
            (λ (item : ExecutionProfile). profile_value item.profile_id)
            manifest.execution_profiles)
  pub distinct_ports : Distinct (map port_key manifest.ports)

validate_manifest-IsValidManifest :
    (full_match : ManifestPattern → String → Bool) (manifest : ComponentManifest)
    → validate_manifest full_match manifest ≡ ok tt
    → IsValidManifest full_match manifest
unfolding validate_manifest
validate_manifest-IsValidManifest full_match manifest h =
    let id = manifest.component_id in
    let ids =
      map (λ (item : ExecutionProfile). profile_value item.profile_id)
        manifest.execution_profiles in
    let own = λ (item : ExecutionProfile). item.component_id == id in
    let (_, _, h1) =
      >>=-eq-ok (guard (manifest.schema == "devloop.step-component/v1") bad_schema) _ h in
    let (_, g1, h2) =
      >>=-eq-ok (guard (full_match semantic_version manifest.version) bad_version) _ h1 in
    let (_, g2, h3) =
      >>=-eq-ok (guard (full_match distribution_name manifest.distribution) bad_distribution) _
        h2 in
    let (_, g3, h4) =
      >>=-eq-ok (guard (full_match sha256_hash manifest.package_hash) bad_hash) _ h3 in
    let (_, g4, h5) =
      >>=-eq-ok (guard (owns_policy id manifest.approval_policy) foreign_policy) _ h4 in
    let (_, g5, h6) = >>=-eq-ok (guard (all_unique ids) repeated_profile) _ h5 in
    let (_, g6, h7) =
      >>=-eq-ok (guard (all own manifest.execution_profiles) foreign_profile) _ h6 in
    let (_, g7, h8) =
      >>=-eq-ok (guard (has_default ids manifest.default_execution_profile) missing_profile) _ h7 in
    record {
      version = guard-eq-ok (full_match semantic_version manifest.version) bad_version g1;
      distribution =
          guard-eq-ok (full_match distribution_name manifest.distribution) bad_distribution g2;
      package_hash = guard-eq-ok (full_match sha256_hash manifest.package_hash) bad_hash g3;
      policy = λ policy e. (text_same.same_iff policy.component_id id).0 (
          ap (owns_policy id) (sym e)
          ∙ guard-eq-ok (owns_policy id manifest.approval_policy) foreign_policy g4);
      profiles = λ item m. (text_same.same_iff item.component_id id).0 (
          all_elim own manifest.execution_profiles
            (guard-eq-ok (all own manifest.execution_profiles) foreign_profile g6) m);
      distinct_profiles =
          all_unique→Distinct ids (guard-eq-ok (all_unique ids) repeated_profile g5);
      default_profile = λ profile_id e. contains_elim ids profile_id (
          ap (has_default ids) (sym e)
          ∙ guard-eq-ok (has_default ids manifest.default_execution_profile) missing_profile g7);
      distinct_ports =
          all_unique→Distinct (map port_key manifest.ports)
            (guard-eq-ok (all_unique (map port_key manifest.ports)) repeated_port h8);
    }

pub resolve-register :
    {R : Type 0} (full_match : ManifestPattern → String → Bool) (component_of : R → String)
    (entries : List (ComponentManifest × R)) (manifest : ComponentManifest) (runner : R)
    {after : List (ComponentManifest × R)}
    → register full_match component_of entries manifest runner ≡ ok after
    → IsValidManifest full_match manifest
      × (manifest.component_id ≡ component_of runner)
      × (resolve entries manifest.component_id ≡ err not_registered)
      × (resolve after manifest.component_id ≡ ok (manifest, runner))
      × ((other : String)
          → (other == manifest.component_id) ≡ false
          → resolve after other ≡ resolve entries other)
unfolding register resolve
resolve-register {R} full_match component_of entries manifest runner {after} h =
    let id = manifest.component_id in
    let (_, valid, h1) = >>=-eq-ok (validate_manifest full_match manifest) _ h in
    let (_, own, h2) = >>=-eq-ok (guard (id == component_of runner) other_runner) _ h1 in
    let (_, fresh, h3) =
      >>=-eq-ok (raise_if (is_some (entry_of entries id)) already_registered) _ h2 in
    let same : (manifest, runner) ∷ entries ≡ after = ok-injective h3 in
    let (found, others) =
      subst
        (λ (t : List (ComponentManifest × R)).
          (or_raise not_registered (entry_of t id) ≡ ok (manifest, runner))
          × ((other : String)
              → (other == id) ≡ false
              → or_raise not_registered (entry_of t other)
                ≡ or_raise not_registered (entry_of entries other)))
        same (rw (==-refl id) refl, λ other differs. rw (flip other differs) refl) in
    (
      validate_manifest-IsValidManifest full_match manifest valid,
      (text_same.same_iff id (component_of runner)).0
          (guard-eq-ok (id == component_of runner) other_runner own),
      ap (or_raise not_registered) (
          is_none_of (entry_of entries id)
            (raise_if-eq-ok (is_some (entry_of entries id)) already_registered fresh)),
      found,
      others,
    )
  where
    flip :
        (other : String)
        → (other == manifest.component_id) ≡ false
        → (manifest.component_id == other) ≡ false
    flip other differs = elim (Bool-cases (manifest.component_id == other)) [
      | inl same ↦
          let e = (text_same.same_iff manifest.component_id other).0 same in
          absurd (false≢true (sym differs ∙ ap (λ a. other == a) e ∙ ==-refl other))
      | inr fine ↦ fine
    ]
