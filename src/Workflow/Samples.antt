-- ===== src/Workflow/Samples.antt =====
-- A workflow of one step that starts over until it succeeds, and the theorems about
-- src/devloop/workflow/definition.py at it.
use devloop.Workflow.Registry.{
  not_registered, IsValidManifest, resolve-register, validate_manifest, resolve, register,
}
use devloop.Prelude.Int.{pos}
use devloop.Domain.Outcomes.{StepOutcome}
use devloop.Workflow.Targets.{required_target-step}
use devloop.Workflow.Ports.{
  StepExecutionPolicy, validate_ports-IsBound, is_output, is_input, PortDirection, IsBound,
  ports_match, ComponentManifest, validate_component_ports,
}
use devloop.Workflow.Parse.{parse_workflow_definition, WorkflowLibrary}
use devloop.Json.{
  null_value, no_fields, no_items, int_value, text_value, fields, items, object_value, JsonFields,
  array_value, Json,
}
use devloop.Workflow.{
  step, transition_target, WorkflowStepDefinition, required_transition_target, WorkflowDefinition,
  completion_step,
}
use devloop.Prelude.{
  err, false, ◌==◌, List, none, refl, true, [], keep, ok, ◌∷◌, some, String, ◌≡◌, text_same,
}

abbrev pair : String → Json → JsonFields → JsonFields
pair = fields

abbrev one : Json → Json
one value = array_value (items value no_items)

abbrev binding : Json
binding = object_value (
    pair "port" (text_value "p")
      (pair "contract" (text_value "c") (pair "source" (text_value "s") no_fields)))

abbrev step_value : Json
step_value = object_value (
    pair "id" (text_value "dev") (
      pair "component" (text_value "k") (
        pair "inputs" (one binding) (
          pair "outputs" (array_value no_items) (
            pair "transitions"
              (object_value (
                pair "SUCCEEDED" null_value
                  (pair "CHANGES_REQUESTED" (text_value "dev") no_fields)))
              no_fields)))))

abbrev retries : Json
retries = object_value (
    pair "max_rework_cycles_per_issue" (int_value (pos 2))
      (pair "max_transient_backend_retries" (int_value (pos 1)) no_fields))

abbrev payload : Json
payload = object_value (
    pair "schema" (text_value "devloop.workflow-definition/v1") (
      pair "id" (text_value "w") (
        pair "version" (text_value "1")
          (pair "steps" (one step_value) (pair "retry_policy" retries no_fields)))))

abbrev library : WorkflowLibrary
library = record {
  loads = λ raw. some payload;
  sha256 = λ raw. raw;
  is_registered_id = λ text. true;
  is_contract_id = λ text. true;
}

abbrev dev : WorkflowStepDefinition
dev = record {
  step_id = "dev";
  component_id = "k";
  inputs = record { port_name = "p"; contract_id = "c"; source = "s" } ∷ [];
  outputs = [];
  transitions = (StepOutcome.succeeded, none) ∷ (StepOutcome.changes_requested, some "dev") ∷ [];
}

abbrev definition : WorkflowDefinition
definition = record {
  schema = "devloop.workflow-definition/v1";
  workflow_id = "w";
  version = "1";
  definition_hash = "raw";
  retry_policy = record { max_rework_cycles_per_issue = 2; max_transient_backend_retries = 1 };
  steps = dev ∷ [];
}

parsed : parse_workflow_definition library "raw" ≡ ok definition
unfolding parse_workflow_definition
parsed = refl

again : required_transition_target definition "dev" StepOutcome.changes_requested ≡ ok "dev"
unfolding required_transition_target transition_target step
again = refl

completion_run : completion_step definition ≡ ok "dev"
unfolding completion_step
completion_run = refl

required_target_example :
    (next : WorkflowStepDefinition) × (step definition "dev" ≡ ok next) × (next.step_id ≡ "dev")
required_target_example =
    required_target-step library "raw" "dev" StepOutcome.changes_requested parsed again

abbrev manifest : ComponentManifest
manifest = record {
  schema = "devloop.step-component/v1";
  component_id = "k";
  version = "1.0.0";
  distribution = "devloop";
  package_hash = "h";
  execution_policy = StepExecutionPolicy.verification_only;
  ports =
      record { name = "p"; contract_id = "c"; direction = PortDirection.input; required = true }
      ∷ [];
  approval_policy = none;
  execution_profiles = [];
  default_execution_profile = none;
}

ports_valid : validate_component_ports dev manifest ≡ ok tt
unfolding validate_component_ports ports_match
ports_valid = refl

validate_ports_example :
    (dev.component_id ≡ manifest.component_id)
    × IsBound (keep is_input manifest.ports) dev.inputs
    × IsBound (keep is_output manifest.ports) dev.outputs
validate_ports_example = validate_ports-IsBound dev manifest ports_valid

abbrev registry : List (ComponentManifest × String)
registry = (manifest, "k") ∷ []

registered : register (λ pattern text. true) (λ runner. runner) [] manifest "k" ≡ ok registry
unfolding register validate_manifest
registered = refl

register_example :
    IsValidManifest (λ pattern text. true) manifest
    × (◌≡◌ {A = String} "k" "k")
    × (resolve {R = String} [] "k" ≡ err not_registered)
    × (resolve registry "k" ≡ ok (manifest, "k"))
    × ((other : String) → (other == "k") ≡ false → resolve registry other ≡ resolve [] other)
register_example =
    resolve-register (λ pattern text. true) (λ runner. runner) [] manifest "k" registered
