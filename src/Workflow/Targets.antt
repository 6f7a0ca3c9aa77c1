-- ===== src/Workflow/Targets.antt =====
-- Where the transitions of a parsed workflow lead (src/devloop/workflow/definition.py).
use devloop.Prelude.{
  Bool-cases, [], ◌∷◌, map, for_each-eq-ok, guard-eq-ok, all_unique→Distinct, subst, ok-injective,
  for_each, all_unique, guard, refl, map_result, inr, ==-refl, raise_if, sym, false≢true,
  find-eq-none, contains_elim, mem_of_mem-map, inl, ap, ◌∙◌, find, Option-cases, or_raise,
  find-eq-some, or_raise-eq-ok, ◌==◌, true, contains, some, >>=-eq-ok, Memᴰ, Distinct, ok, String,
  Option, ◌≡◌, List, is_nil, text_same,
}
use devloop.Workflow.Parse.{
  check_target, retry_policy_of, identifier, string_at, check_targets, step_ids, parse_step,
  items_of, check_schema, fields_of, WorkflowLibrary, parse_workflow_definition,
}
use devloop.Json.{get}
use devloop.Domain.Outcomes.{StepOutcome}
use devloop.Workflow.{
  outcome_is, duplicate_steps, no_steps, not_object, bad_json, WorkflowStepDefinition, target_of,
  step, transition_target, required_transition_target, WorkflowDefinition, unknown_step,
  terminal_transition,
}

-- The steps have distinct identifiers, and each target of a transition is one of them.
pub record IsClosed (definition : WorkflowDefinition) : Type 0 where
  pub distinct_steps :
      Distinct (map (λ (item : WorkflowStepDefinition). item.step_id) definition.steps)
  pub targets_known :
      {item : WorkflowStepDefinition} {outcome : StepOutcome} {target : String}
      → Memᴰ item definition.steps
      → Memᴰ {A = StepOutcome × Option String} (outcome, some target) item.transitions
      → contains (map (λ (item : WorkflowStepDefinition). item.step_id) definition.steps) target
        ≡ true

target_of-mem :
    (outcome : StepOutcome) (transitions : List (StepOutcome × Option String)) {t : Option String}
    → target_of outcome transitions ≡ ok t
    → (candidate : StepOutcome) × Memᴰ {A = StepOutcome × Option String} (candidate, t) transitions
target_of-mem outcome [] h = cc
target_of-mem outcome ((candidate, target) ∷ rest) {t} h =
    elim (Bool-cases (outcome_is candidate outcome)) [
      | inl same ↦
          let found : target_of outcome ((candidate, target) ∷ rest) ≡ ok target = rw same refl in
          let e : t ≡ target = ok-injective (sym h ∙ found) in
          (candidate, Memᴰ.head (ap (λ (u : Option String). (candidate, u)) e))
      | inr other ↦
          let later : target_of outcome ((candidate, target) ∷ rest) ≡ target_of outcome rest =
            rw other refl in
          let (c, m) = target_of-mem outcome rest (sym later ∙ h) in (c, Memᴰ.tail m)
    ]

mem_of_step :
    (definition : WorkflowDefinition) (a : String) {found : WorkflowStepDefinition}
    → step definition a ≡ ok found
    → Memᴰ found definition.steps
unfolding step
mem_of_step definition a h =
    let test = λ (item : WorkflowStepDefinition). item.step_id == a in
    (find-eq-some test definition.steps
      (or_raise-eq-ok unknown_step (find test definition.steps) h)).0

step_of_known :
    (definition : WorkflowDefinition) (a : String)
    → contains (map (λ (item : WorkflowStepDefinition). item.step_id) definition.steps) a ≡ true
    → (found : WorkflowStepDefinition) × (step definition a ≡ ok found) × (found.step_id ≡ a)
unfolding step
step_of_known definition a known =
    let id = λ (item : WorkflowStepDefinition). item.step_id in
    let test = λ (item : WorkflowStepDefinition). item.step_id == a in
    elim (Option-cases (find test definition.steps)) [
      | inl missing ↦
          let (item, m, same) =
            mem_of_mem-map (λ (item : WorkflowStepDefinition). item.step_id) definition.steps
              (contains_elim (map id definition.steps) a known) in
          let no = find-eq-none test definition.steps missing m in
          absurd (false≢true (sym no ∙ ap (λ b. b == a) same ∙ ==-refl a))
      | inr (item, found) ↦
          let (_, same) = find-eq-some test definition.steps found in
          rw found (item, refl, (text_same.same_iff item.step_id a).0 same)
    ]

parse-IsClosed :
    (library : WorkflowLibrary) (raw : String) {definition : WorkflowDefinition}
    → parse_workflow_definition library raw ≡ ok definition
    → IsClosed definition
unfolding parse_workflow_definition
parse-IsClosed library raw {definition} h =
    let (payload, _, h1) = >>=-eq-ok (or_raise bad_json (library.loads raw)) _ h in
    let (object, _, h2) = >>=-eq-ok (fields_of not_object payload) _ h1 in
    let (_, _, h3) = >>=-eq-ok (check_schema object) _ h2 in
    let (steps_data, _, h4) = >>=-eq-ok (items_of no_steps (get object "steps")) _ h3 in
    let (_, _, h5) = >>=-eq-ok (raise_if (is_nil steps_data) no_steps) _ h4 in
    let (steps, _, h6) = >>=-eq-ok (map_result (parse_step library) steps_data) _ h5 in
    let ids = step_ids library steps in
    let (_, unique, h7) = >>=-eq-ok (guard (all_unique ids) duplicate_steps) _ h6 in
    let (_, known, h8) = >>=-eq-ok (for_each (check_targets library ids) steps) _ h7 in
    let (id, _, h9) = >>=-eq-ok (string_at object "id") _ h8 in
    let (workflow_id, _, h10) = >>=-eq-ok (identifier library.is_registered_id id) _ h9 in
    let (version, _, h11) = >>=-eq-ok (string_at object "version") _ h10 in
    let (policy, _, h12) = >>=-eq-ok (retry_policy_of (get object "retry_policy")) _ h11 in
    let made : WorkflowDefinition = record {
      schema = "devloop.workflow-definition/v1";
      workflow_id = workflow_id;
      version = version;
      definition_hash = library.sha256 raw;
      retry_policy = policy;
      steps = steps;
    } in
    let same : made ≡ definition = ok-injective h12 in
    subst IsClosed same (record {
      distinct_steps = all_unique→Distinct ids (guard-eq-ok _ _ unique);
      targets_known = λ {item} {outcome} {target} m t. guard-eq-ok _ _ (
          for_each-eq-ok (check_target library ids) item.transitions
            (for_each-eq-ok (check_targets library ids) steps known m) t);
    })

-- In a workflow that was parsed without error, a required transition leads to a step of the
-- workflow: `step` finds it.
pub required_target-step :
    (library : WorkflowLibrary) (raw step_id : String) (outcome : StepOutcome)
    {definition : WorkflowDefinition} {target : String}
    → parse_workflow_definition library raw ≡ ok definition
    → required_transition_target definition step_id outcome ≡ ok target
    → (next : WorkflowStepDefinition) × (step definition target ≡ ok next) × (next.step_id ≡ target)
unfolding required_transition_target transition_target
required_target-step library raw step_id outcome {definition} {target} parsed h =
    let closed = parse-IsClosed library raw parsed in
    let (t, h1, found) = >>=-eq-ok (transition_target definition step_id outcome) _ h in
    let (item, h2, picked) = >>=-eq-ok (step definition step_id) _ h1 in
    let some_target = or_raise-eq-ok terminal_transition t found in
    let (candidate, m) = target_of-mem outcome item.transitions (picked ∙ ap ok some_target) in
    step_of_known definition target (closed.targets_known (mem_of_step definition step_id h2) m)
