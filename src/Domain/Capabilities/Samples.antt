-- ===== src/Domain/Capabilities/Samples.antt =====
-- A catalog of one component, and the theorem about src/devloop/domain/capabilities.py at it.
use devloop.Domain.Capabilities.Lookup.{new_catalog-installed}
use devloop.Domain.Capabilities.{
  descriptor_of, declared, CapabilityKind, definition_of, StepCapabilityDefinition, new_catalog,
  CapabilityDescriptor, CapabilityCatalog,
}
use devloop.Prelude.{refl, ok, [], ◌∷◌, ◌≡◌, text_same}

abbrev tdd : CapabilityDescriptor
tdd = record { capability_id = "tdd"; kind = CapabilityKind.skill; title = "T"; description = "D" }

abbrev development : StepCapabilityDefinition
development = record { component_id = "dev"; required = []; defaults = "tdd" ∷ [] }

abbrev catalog : CapabilityCatalog
catalog = record { descriptors = tdd ∷ []; definitions = development ∷ [] }

catalog_made : new_catalog (tdd ∷ []) (development ∷ []) ≡ ok catalog
unfolding new_catalog declared
catalog_made = refl

definition_found : definition_of catalog "dev" ≡ ok development
unfolding definition_of
definition_found = refl

installed_example :
    (d : CapabilityDescriptor) × (descriptor_of catalog "tdd" ≡ ok d) × (d.capability_id ≡ "tdd")
installed_example =
    new_catalog-installed (tdd ∷ []) (development ∷ []) "dev" "tdd" catalog_made definition_found
      refl
