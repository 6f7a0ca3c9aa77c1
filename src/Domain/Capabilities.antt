-- ===== src/Domain/Capabilities.antt =====
-- The catalog of capabilities of src/devloop/domain/capabilities.py. A descriptor or a definition is
-- checked where it is made; the dicts of the catalog are read by their last element with a key.
pub mod Lookup
mod Samples
use devloop.Prelude.{
  ok, contains, all, ◌||◌, [], text_same, any, ◌==◌, all_unique, if◌then◌else◌, find_last, ◌++◌,
  ◌>>◌, or_raise, map, raise_if, guard, ◌∷◌, String, Result, List,
}

pub data CapabilityKind : Type 0 where
  skill agent_reference : CapabilityKind

pub data CapabilityError : Type 0 where
  missing_display repeated_required repeated_default not_distinct repeated_capability
        repeated_definition not_installed unknown_component :
      CapabilityError

pub record CapabilityDescriptor : Type 0 where
  pub capability_id : String
  pub kind : CapabilityKind
  pub title : String
  pub description : String

-- `CapabilityDescriptor.__post_init__`; `strip` is Python's.
unfoldable pub check_descriptor :
    (String → String) → CapabilityDescriptor → Result CapabilityError Unit
check_descriptor strip descriptor =
    raise_if (strip descriptor.title == "" || strip descriptor.description == "") missing_display

pub record StepCapabilityDefinition : Type 0 where
  pub component_id : String
  pub required : List String
  pub defaults : List String

-- `StepCapabilityDefinition.__post_init__`
unfoldable pub check_definition : StepCapabilityDefinition → Result CapabilityError Unit
check_definition definition = do
  guard (all_unique definition.required) repeated_required
  guard (all_unique definition.defaults) repeated_default
  raise_if (any (contains definition.defaults) definition.required) not_distinct

pub record ResolvedCapabilityProfile : Type 0 where
  pub component_id : String
  pub capabilities : List String

-- `ResolvedCapabilityProfile.__post_init__`
unfoldable pub check_profile : ResolvedCapabilityProfile → Result CapabilityError Unit
check_profile profile = guard (all_unique profile.capabilities) repeated_capability

pub record CapabilityCatalog : Type 0 where
  pub descriptors : List CapabilityDescriptor
  pub definitions : List StepCapabilityDefinition

-- The set `declared`, with its repetitions.
unfoldable pub declared : List StepCapabilityDefinition → List String
declared [] = []
declared (definition ∷ rest) = (definition.required ++ definition.defaults) ++ declared rest

abbrev pub capability_ids : List CapabilityDescriptor → List String
capability_ids = map (λ (item : CapabilityDescriptor). item.capability_id)

abbrev pub component_ids : List StepCapabilityDefinition → List String
component_ids = map (λ (item : StepCapabilityDefinition). item.component_id)

-- `CapabilityCatalog(descriptors, definitions)`
unfoldable pub new_catalog :
    List CapabilityDescriptor
    → List StepCapabilityDefinition
    → Result CapabilityError CapabilityCatalog
new_catalog descriptors definitions = do
  guard (all_unique (capability_ids descriptors)) repeated_capability
  guard (all_unique (component_ids definitions)) repeated_definition
  guard (all (contains (capability_ids descriptors)) (declared definitions)) not_installed
  ok (record { descriptors = descriptors; definitions = definitions })

-- `CapabilityCatalog.definition`
unfoldable pub definition_of :
    CapabilityCatalog → String → Result CapabilityError StepCapabilityDefinition
definition_of catalog component_id = or_raise unknown_component (
    find_last (λ (item : StepCapabilityDefinition). item.component_id == component_id)
      catalog.definitions)

-- `CapabilityCatalog.descriptor`
unfoldable pub descriptor_of :
    CapabilityCatalog → String → Result CapabilityError CapabilityDescriptor
descriptor_of catalog capability_id = or_raise not_installed (
    find_last (λ (item : CapabilityDescriptor). item.capability_id == capability_id)
      catalog.descriptors)

-- `capabilities_for`
unfoldable pub capabilities_for :
    List ResolvedCapabilityProfile → String → List String → List String
capabilities_for [] component_id fallback = fallback
capabilities_for (profile ∷ rest) component_id fallback =
    let later = capabilities_for rest component_id fallback in
    if profile.component_id == component_id then profile.capabilities else later
