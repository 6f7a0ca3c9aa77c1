-- ===== src/Workflow.antt =====
-- Workflow definitions of src/devloop/workflow/definition.py: the records and the methods of
-- `WorkflowDefinition`. The children are its parser, the ports of its steps and the registry of
-- their components.
pub mod Parse
pub mod Targets
pub mod Ports
pub mod Registry
mod Samples
use devloop.Domain.Attempts.{RetryPolicy}
use devloop.Domain.Outcomes.{StepOutcome}
use devloop.Prelude.{
  if◌then◌else◌, text_same, [], is_missing, find, ok, ◌&&◌, ◌==◌, err, ℕ, or_raise, any, keep,
  ◌>>=◌, map, Option, nat_beq, ◌∷◌, Result, List, Bool, String,
}

pub data WorkflowError : Type 0 where
  bad_json not_object unsupported_schema no_steps duplicate_steps unknown_target step_not_object
        no_retry_policy bad_retry_policy bindings_not_list binding_not_object transitions_not_object
        missing_string bad_value unknown_step not_one_step no_transition terminal_transition
        not_one_completion wrong_component repeated_binding ports_mismatch :
      WorkflowError

pub record PortBinding : Type 0 where
  pub port_name : String
  pub contract_id : String
  pub source : String

pub record WorkflowStepDefinition : Type 0 where
  pub step_id : String
  pub component_id : String
  pub inputs : List PortBinding
  pub outputs : List PortBinding
  pub transitions : List (StepOutcome × Option String)

pub record WorkflowDefinition : Type 0 where
  pub schema : String
  pub workflow_id : String
  pub version : String
  pub definition_hash : String
  pub retry_policy : RetryPolicy
  pub steps : List WorkflowStepDefinition

abbrev pub outcome_place : StepOutcome → ℕ
outcome_place StepOutcome.succeeded = 0
outcome_place StepOutcome.changes_requested = 1
outcome_place StepOutcome.blocked = 2
outcome_place StepOutcome.failed = 3
outcome_place StepOutcome.cancelled = 4

-- `candidate is outcome`
abbrev pub outcome_is : StepOutcome → StepOutcome → Bool
outcome_is a b = nat_beq (outcome_place a) (outcome_place b)

unfoldable pub step : WorkflowDefinition → String → Result WorkflowError WorkflowStepDefinition
step definition step_id =
    or_raise unknown_step
      (find (λ (item : WorkflowStepDefinition). item.step_id == step_id) definition.steps)

-- The only candidate.
abbrev pub single : {A : Type 0} → WorkflowError → List A → Result WorkflowError A
single error (candidate ∷ []) = ok candidate
single error _ = err error

unfoldable pub step_for_component :
    WorkflowDefinition → String → Result WorkflowError WorkflowStepDefinition
step_for_component definition component_id =
    single not_one_step
      (keep (λ (item : WorkflowStepDefinition). item.component_id == component_id) definition.steps)

-- The loop of `transition_target`.
abbrev pub target_of :
    StepOutcome → List (StepOutcome × Option String) → Result WorkflowError (Option String)
target_of outcome [] = err no_transition
target_of outcome ((candidate, target) ∷ rest) =
    let later = target_of outcome rest in if outcome_is candidate outcome then ok target else later

unfoldable pub transition_target :
    WorkflowDefinition → String → StepOutcome → Result WorkflowError (Option String)
transition_target definition step_id outcome =
    step definition step_id >>= λ found. target_of outcome found.transitions

unfoldable pub required_transition_target :
    WorkflowDefinition → String → StepOutcome → Result WorkflowError String
required_transition_target definition step_id outcome =
    transition_target definition step_id outcome >>= or_raise terminal_transition

abbrev pub completes : WorkflowStepDefinition → Bool
completes item =
    any
      (λ (t : StepOutcome × Option String). outcome_is t.0 StepOutcome.succeeded && is_missing t.1)
      item.transitions

unfoldable pub completion_step : WorkflowDefinition → Result WorkflowError String
completion_step definition =
    single not_one_completion
      (map (λ (item : WorkflowStepDefinition). item.step_id) (keep completes definition.steps))
