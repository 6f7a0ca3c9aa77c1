-- ===== src/Workflow/Parse.antt =====
-- `parse_workflow_definition` of src/devloop/workflow/definition.py.
use devloop.Json.{
  Json, JsonFields, get, item_list, field_list, null_value, int_value, text_value, array_value,
  object_value,
}
use devloop.Domain.Outcomes.{StepOutcome}
use devloop.Prelude.Int.{ℤ}
use devloop.Prelude.{
  all_unique, is_nil, false, ◌>>◌, text_same, contains, map_result, or_raise, some, ◌==◌, err,
  for_each, none, ◌>>=◌, map, Option, guard, if◌then◌else◌, ok, raise_if, String, Bool, Result,
  List,
}
use devloop.Workflow.{
  unsupported_schema, missing_string, duplicate_steps, no_steps, not_object, unknown_target,
  bad_json, no_retry_policy, step_not_object, binding_not_object, bad_retry_policy,
  bindings_not_list, transitions_not_object, WorkflowStepDefinition, WorkflowDefinition,
  PortBinding, WorkflowError, bad_value,
}
use devloop.Domain.Attempts.{AttemptError, RetryPolicy, new_policy}

-- What the code takes from other modules: `json.loads`, `hashlib`, and the patterns of the
-- identifiers. `loads` has no value where it raises.
pub record WorkflowLibrary : Type 0 where
  pub loads : String → Option Json
  pub sha256 : String → String
  pub is_registered_id : String → Bool
  pub is_contract_id : String → Bool

-- `_typed_string`
unfoldable pub typed_string : Json → Result WorkflowError String
typed_string (text_value value) = raise_if (value == "") missing_string >>= λ _. ok value
typed_string _ = err missing_string

-- `_string`
unfoldable pub string_at : JsonFields → String → Result WorkflowError String
unfolding typed_string
string_at object key = typed_string (get object key)

-- The constructor of an identifier: the ValueError of its pattern.
abbrev pub identifier : (String → Bool) → String → Result WorkflowError String
identifier matches value = guard (matches value) bad_value >>= λ _. ok value

abbrev pub fields_of : WorkflowError → Json → Result WorkflowError JsonFields
fields_of error (object_value object) = ok object
fields_of error _ = err error

abbrev pub items_of : WorkflowError → Json → Result WorkflowError (List Json)
items_of error (array_value object) = ok (item_list object)
items_of error _ = err error

-- `StepOutcome(value)`
abbrev pub outcome_of : String → Result WorkflowError StepOutcome
outcome_of value =
    if value == "SUCCEEDED"
    then ok StepOutcome.succeeded
    else if value == "CHANGES_REQUESTED"
    then ok StepOutcome.changes_requested
    else if value == "BLOCKED"
    then ok StepOutcome.blocked
    else if value == "FAILED"
    then ok StepOutcome.failed
    else if value == "CANCELLED"
    then ok StepOutcome.cancelled
    else err bad_value

-- `_integer`; a value that it refuses and one that `RetryPolicy` refuses give the same error, since
-- `WorkflowDefinitionError` is a ValueError.
abbrev pub integer_at : JsonFields → String → Result WorkflowError ℤ
integer_at object key = elim (get object key) [ int_value n ↦ ok n | _ ↦ err bad_retry_policy ]

abbrev pub policy_or_raise : Result AttemptError RetryPolicy → Result WorkflowError RetryPolicy
policy_or_raise (ok policy) = ok policy
policy_or_raise (err _) = err bad_retry_policy

-- `_retry_policy`
unfoldable pub retry_policy_of : Json → Result WorkflowError RetryPolicy
unfolding new_policy
retry_policy_of value = do
  object ← fields_of no_retry_policy value
  reworks ← integer_at object "max_rework_cycles_per_issue"
  retries ← integer_at object "max_transient_backend_retries"
  policy_or_raise (new_policy reworks retries)

abbrev pub check_schema : JsonFields → Result WorkflowError Unit
check_schema object =
    guard
      (elim (get object "schema") [
        | text_value text ↦ text == "devloop.workflow-definition/v1"
        | _ ↦ false
      ])
      unsupported_schema

module _ (library : WorkflowLibrary) where
  open library use {loads, sha256, is_registered_id, is_contract_id}

  abbrev pub parse_binding : Json → Result WorkflowError PortBinding
  unfolding string_at
  parse_binding value = do
    object ← fields_of binding_not_object value
    port_name ← string_at object "port"
    contract ← string_at object "contract"
    contract_id ← identifier is_contract_id contract
    source ← string_at object "source"
    ok (record { port_name = port_name; contract_id = contract_id; source = source })

  -- `_bindings`
  unfoldable pub bindings_of : Json → Result WorkflowError (List PortBinding)
  unfolding parse_binding
  bindings_of value = items_of bindings_not_list value >>= map_result parse_binding

  abbrev pub target_value : Json → Result WorkflowError (Option String)
  unfolding typed_string
  target_value null_value = ok none
  target_value value =
      typed_string value >>= λ text. identifier is_registered_id text >>= λ target. ok (some target)

  abbrev pub parse_transition : String × Json → Result WorkflowError (StepOutcome × Option String)
  parse_transition (name, value) = do
    outcome ← outcome_of name
    target ← target_value value
    ok (outcome, target)

  -- `_transitions`
  unfoldable pub transitions_of : Json → Result WorkflowError (List (StepOutcome × Option String))
  transitions_of value = fields_of transitions_not_object value >>= λ object.
      map_result parse_transition (field_list object)

  -- `_parse_step`
  unfoldable pub parse_step : Json → Result WorkflowError WorkflowStepDefinition
  unfolding bindings_of transitions_of string_at
  parse_step value = do
    object ← fields_of step_not_object value
    id ← string_at object "id"
    step_id ← identifier is_registered_id id
    component ← string_at object "component"
    component_id ← identifier is_registered_id component
    inputs ← bindings_of (get object "inputs")
    outputs ← bindings_of (get object "outputs")
    transitions ← transitions_of (get object "transitions")
    ok (record {
      step_id = step_id;
      component_id = component_id;
      inputs = inputs;
      outputs = outputs;
      transitions = transitions;
    })

  abbrev pub step_ids : List WorkflowStepDefinition → List String
  step_ids = map (λ (item : WorkflowStepDefinition). item.step_id)

  -- The target of a transition is a step.
  unfoldable pub check_target :
      List String → StepOutcome × Option String → Result WorkflowError Unit
  check_target ids (_, none) = ok tt
  check_target ids (_, some target) = guard (contains ids target) unknown_target

  abbrev pub check_targets : List String → WorkflowStepDefinition → Result WorkflowError Unit
  check_targets ids item = for_each (check_target ids) item.transitions

  unfoldable pub parse_workflow_definition : String → Result WorkflowError WorkflowDefinition
  unfolding parse_step check_target retry_policy_of string_at
  parse_workflow_definition raw = do
    payload ← or_raise bad_json (loads raw)
    object ← fields_of not_object payload
    check_schema object
    steps_data ← items_of no_steps (get object "steps")
    raise_if (is_nil steps_data) no_steps
    steps ← map_result parse_step steps_data
    guard (all_unique (step_ids steps)) duplicate_steps
    for_each (check_targets (step_ids steps)) steps
    id ← string_at object "id"
    workflow_id ← identifier is_registered_id id
    version ← string_at object "version"
    retry_policy ← retry_policy_of (get object "retry_policy")
    ok (record {
      schema = "devloop.workflow-definition/v1";
      workflow_id = workflow_id;
      version = version;
      definition_hash = sha256 raw;
      retry_policy = retry_policy;
      steps = steps;
    })
