-- ===== src/Workflow/Ports.antt =====
-- `validate_component_ports` of src/devloop/workflow/definition.py, and the ports of a component
-- from src/devloop/components/contracts.py.
use devloop.Domain.Execution.{ExecutionProfile}
use devloop.Domain.Approval.{ApprovalPolicy}
use devloop.Workflow.{
  ports_mismatch, repeated_binding, wrong_component, WorkflowError, PortBinding,
  WorkflowStepDefinition,
}
use devloop.Prelude.{
  Option, refl, find_last-eq-some, inr, ◌∙◌, sym, guard-eq-ok, arith, false≢true, all_elim, inl,
  all_unique→Distinct, text_same, >>=-eq-ok, ◌&&◌, guard, Option-cases, &&-eq_true, ◌==◌, keep,
  ◌>>◌, ◌||◌, contains, map, all_unique, Distinct, false, all, ok, Memᴰ, find_last, Result, not,
  true, ◌≡◌, String, List, Bool, none, some,
}

pub data PortDirection : Type 0 where
  input output : PortDirection

pub record ComponentPort : Type 0 where
  pub name : String
  pub contract_id : String
  pub direction : PortDirection
  pub required : Bool

pub data StepExecutionPolicy : Type 0 where
  analysis_draft_only explicit_git workspace_write read_only verification_only local_finalization :
      StepExecutionPolicy

pub record ComponentManifest : Type 0 where
  pub schema : String
  pub component_id : String
  pub version : String
  pub distribution : String
  pub package_hash : String
  pub execution_policy : StepExecutionPolicy
  pub ports : List ComponentPort
  pub approval_policy : Option ApprovalPolicy
  pub execution_profiles : List ExecutionProfile
  pub default_execution_profile : Option String

abbrev pub is_input : ComponentPort → Bool
is_input port = elim port.direction [ input ↦ true | output ↦ false ]

abbrev pub is_output : ComponentPort → Bool
is_output port = not (is_input port)

abbrev pub port_names : List PortBinding → List String
port_names = map (λ (item : PortBinding). item.port_name)

-- `known.get(name) == contract`, where the dict has the ports that pass the test.
abbrev pub agrees : List ComponentPort → PortBinding → Bool
agrees known item = elim (find_last (λ (port : ComponentPort). port.name == item.port_name) known) [
  | none ↦ false
  | some port ↦ port.contract_id == item.contract_id
]

-- One direction: each required port is bound, and each binding has the contract of its port.
unfoldable pub ports_match : List ComponentPort → List PortBinding → Bool
ports_match known bindings =
    all (λ (port : ComponentPort). not port.required || contains (port_names bindings) port.name)
      known
    && all (agrees known) bindings

unfoldable pub validate_component_ports :
    WorkflowStepDefinition → ComponentManifest → Result WorkflowError Unit
validate_component_ports definition manifest = do
  guard (definition.component_id == manifest.component_id) wrong_component
  guard (all_unique (port_names definition.inputs) && all_unique (port_names definition.outputs))
      repeated_binding
  guard
      (ports_match (keep is_input manifest.ports) definition.inputs
        && ports_match (keep is_output manifest.ports) definition.outputs)
      ports_mismatch

-- The bindings of one direction are right: no port is bound twice, a required port is bound, and a
-- binding is of a port of that direction with the contract of the port.
pub record IsBound (known : List ComponentPort) (bindings : List PortBinding) : Type 0 where
  pub bound_once : Distinct (port_names bindings)
  pub required_bound :
      {port : ComponentPort}
      → Memᴰ port known
      → port.required ≡ true
      → contains (port_names bindings) port.name ≡ true
  pub contracts :
      {item : PortBinding}
      → Memᴰ item bindings
      → (port : ComponentPort) × Memᴰ port known
        × (port.name ≡ item.port_name)
        × (port.contract_id ≡ item.contract_id)

agrees-port :
    (known : List ComponentPort) (item : PortBinding)
    → agrees known item ≡ true
    → (port : ComponentPort) × Memᴰ port known
      × (port.name ≡ item.port_name)
      × (port.contract_id ≡ item.contract_id)
agrees-port known item h =
    let test = λ (port : ComponentPort). port.name == item.port_name in
    elim (Option-cases (find_last test known)) [
      | inl missing ↦
          let no : agrees known item ≡ false = rw (missing, agrees) refl in
          absurd (false≢true (sym no ∙ h))
      | inr (port, found) ↦
          let (m, named) = find_last-eq-some test known found in
          let same : agrees known item ≡ (port.contract_id == item.contract_id) =
            rw (found, agrees) refl in
          (
            port,
            m,
            (text_same.same_iff port.name item.port_name).0 named,
            (text_same.same_iff port.contract_id item.contract_id).0 (sym same ∙ h),
          )
    ]

ports_match-IsBound :
    (known : List ComponentPort) (bindings : List PortBinding)
    → all_unique (port_names bindings) ≡ true
    → ports_match known bindings ≡ true
    → IsBound known bindings
unfolding ports_match
ports_match-IsBound known bindings unique h =
    let covers =
      λ (port : ComponentPort). not port.required || contains (port_names bindings) port.name in
    let (covered, agreed) = &&-eq_true (all covers known) (all (agrees known) bindings) h in
    record {
      bound_once = all_unique→Distinct (port_names bindings) unique;
      required_bound = λ {port} m r. let here = all_elim covers known covered m in ground arith;
      contracts = λ {item} m. agrees-port known item (all_elim (agrees known) bindings agreed m);
    }

-- A step that passes the validation is one of the component of the manifest; among its inputs and
-- among its outputs no port is bound twice, each required port is bound, and each binding is of a
-- port of the manifest in that direction, with the contract of the port.
pub validate_ports-IsBound :
    (definition : WorkflowStepDefinition) (manifest : ComponentManifest)
    → validate_component_ports definition manifest ≡ ok tt
    → (definition.component_id ≡ manifest.component_id)
      × IsBound (keep is_input manifest.ports) definition.inputs
      × IsBound (keep is_output manifest.ports) definition.outputs
unfolding validate_component_ports
validate_ports-IsBound definition manifest h =
    let (_, same, h1) =
      >>=-eq-ok (guard (definition.component_id == manifest.component_id) wrong_component) _ h in
    let (_, unique, h2) =
      >>=-eq-ok
        (guard
          (all_unique (port_names definition.inputs) && all_unique (port_names definition.outputs))
          repeated_binding)
        _ h1 in
    let (once_in, once_out) = &&-eq_true _ _ (guard-eq-ok _ _ unique) in
    let (ins, outs) = &&-eq_true _ _ (guard-eq-ok _ _ h2) in
    (
      (text_same.same_iff definition.component_id manifest.component_id).0 (guard-eq-ok _ _ same),
      ports_match-IsBound (keep is_input manifest.ports) definition.inputs once_in ins,
      ports_match-IsBound (keep is_output manifest.ports) definition.outputs once_out outs,
    )
