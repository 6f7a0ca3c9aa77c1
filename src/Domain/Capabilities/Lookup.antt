-- ===== src/Domain/Capabilities/Lookup.antt =====
-- What a catalog promises about its capabilities (src/devloop/domain/capabilities.py).
use mathlib.Core.List.Memᴰ
use devloop.Domain.Capabilities.{
  unknown_component, not_installed, repeated_definition, component_ids, repeated_capability,
  definition_of, capability_ids, new_catalog, StepCapabilityDefinition, CapabilityCatalog,
  CapabilityDescriptor, declared, descriptor_of,
}
use devloop.Prelude.{
  guard-eq-ok, all_elim, subst, or_raise-eq-ok, all, all_unique, guard, >>=-eq-ok, [], refl,
  find_last-eq-some, arith, inr, ==-refl, contains-append, false≢true, ◌∙◌, find_last-eq-none, sym,
  contains_elim, mem_of_mem-map, ap, find_last, inl, Option-cases, ◌==◌, ◌∷◌, ok, true, ◌≡◌, ◌++◌,
  contains, Memᴰ, String, List, text_same,
}

declared-mem :
    (definitions : List StepCapabilityDefinition) {d : StepCapabilityDefinition} (c : String)
    → Memᴰ d definitions
    → contains (d.required ++ d.defaults) c ≡ true
    → contains (declared definitions) c ≡ true
unfolding declared
declared-mem [] c m h = elim m [ ]
declared-mem (first ∷ rest) {d} c m h = elim (Memᴰ.cases_cons m) [
  | inl here ↦
      let found : contains (first.required ++ first.defaults) c ≡ true =
        ap (λ (e : StepCapabilityDefinition). contains (e.required ++ e.defaults) c) (sym here)
        ∙ h in
      rw (contains-append (first.required ++ first.defaults) (declared rest) c) (rw found refl)
  | inr later ↦
      rw (contains-append (first.required ++ first.defaults) (declared rest) c)
        (rw (declared-mem rest c later h) (ground arith))
]

descriptor_of-installed :
    (catalog : CapabilityCatalog) (c : String)
    → contains (capability_ids catalog.descriptors) c ≡ true
    → (d : CapabilityDescriptor) × (descriptor_of catalog c ≡ ok d) × (d.capability_id ≡ c)
unfolding descriptor_of
descriptor_of-installed catalog c h =
    let test = λ (item : CapabilityDescriptor). item.capability_id == c in
    elim (Option-cases (find_last test catalog.descriptors)) [
      | inl missing ↦
          let (d, m, same) =
            mem_of_mem-map (λ (item : CapabilityDescriptor). item.capability_id) catalog.descriptors
              (contains_elim (capability_ids catalog.descriptors) c h) in
          let no = find_last-eq-none test catalog.descriptors missing m in
          absurd (false≢true (sym no ∙ ap (λ a. a == c) same ∙ ==-refl c))
      | inr (d, found) ↦
          let (_, same) = find_last-eq-some test catalog.descriptors found in
          rw found (d, refl, (text_same.same_iff d.capability_id c).0 same)
    ]

-- In a catalog that was made without error, each capability that the definition of a component
-- requires or has as a default is installed: `descriptor` finds it.
pub new_catalog-installed :
    (descriptors : List CapabilityDescriptor) (definitions : List StepCapabilityDefinition)
    {catalog : CapabilityCatalog} {definition : StepCapabilityDefinition} (component_id c : String)
    → new_catalog descriptors definitions ≡ ok catalog
    → definition_of catalog component_id ≡ ok definition
    → contains (definition.required ++ definition.defaults) c ≡ true
    → (d : CapabilityDescriptor) × (descriptor_of catalog c ≡ ok d) × (d.capability_id ≡ c)
unfolding new_catalog definition_of
new_catalog-installed descriptors definitions {catalog} {definition} component_id c made found h =
    let listed = contains (capability_ids descriptors) in
    let (_, _, h1) =
      >>=-eq-ok (guard (all_unique (capability_ids descriptors)) repeated_capability) _ made in
    let (_, _, h2) =
      >>=-eq-ok (guard (all_unique (component_ids definitions)) repeated_definition) _ h1 in
    let (_, covered, h3) =
      >>=-eq-ok (guard (all listed (declared definitions)) not_installed) _ h2 in
    let test = λ (item : StepCapabilityDefinition). item.component_id == component_id in
    let (m, _) =
      find_last-eq-some test catalog.definitions
        (or_raise-eq-ok unknown_component (find_last test catalog.definitions) found) in
    let same : record { descriptors = descriptors; definitions = definitions } ≡ catalog = cc h3 in
    let m' : Memᴰ definition definitions =
      subst (λ (k : CapabilityCatalog). Memᴰ definition k.definitions) (sym same) m in
    let installed =
      all_elim listed (declared definitions) (guard-eq-ok _ _ covered)
        (contains_elim (declared definitions) c (declared-mem definitions c m' h)) in
    descriptor_of-installed catalog c (
      ap (λ (k : CapabilityCatalog). contains (capability_ids k.descriptors) c) (sym same)
      ∙ installed)
