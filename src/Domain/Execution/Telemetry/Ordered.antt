-- ===== src/Domain/Execution/Telemetry/Ordered.antt =====
-- The order of the phases that the telemetry of src/devloop/domain/execution.py has for each key.
use devloop.Domain.Execution.Telemetry.{
  execution_telemetry_schema, elapsed_after, phase_at, event_key, events_of, ExecutionPhaseEvent,
  check_telemetry, check_key, begins, DateTime, check_phase, ExecutionTelemetry, ClockLibrary,
  record_phase,
}
use devloop.Domain.Execution.{
  not_aware, all_phases, phase_place, phase_is, ExecutionPhase, context_loaded, first_activity,
  first_file_change, verification_started, structured_output, completed, unsupported_schema,
  too_many_events, out_of_order,
}
use devloop.Prelude.{
  ◌==◌, if◌then◌else◌, guard, raise_if, for_each, for_each-eq-ok, guard-eq-ok, >>=-eq-ok, ok, map,
  to_set, contains, contains_intro, contains_elim, contains-to_set, mem_of_mem-keep, mem-map,
  nil_of_empty, ltb, length, nat_beq, nat_beq_iff, ℕ, List, [], ◌∷◌, ◌++◌, Bool, Bool-cases, inl,
  inr, true, false≢true, String, text_same, pair_same, ◌≡◌, refl, ap, sym, ◌∙◌, subst,
}

-- The phases of the events of one component and attempt, in the order of the events.
pub data PhasesOf (component_id attempt_key : String)
    : List ExecutionPhaseEvent → List ExecutionPhase → Type 0 where
  no_event : PhasesOf component_id attempt_key [] []
  own_event :
      {event : ExecutionPhaseEvent} {events : List ExecutionPhaseEvent}
      {phases : List ExecutionPhase}
      → event.component_id ≡ component_id
      → event.attempt_key ≡ attempt_key
      → PhasesOf component_id attempt_key events phases
      → PhasesOf component_id attempt_key (event ∷ events) (event.phase ∷ phases)
  foreign_event :
      {event : ExecutionPhaseEvent} {events : List ExecutionPhaseEvent}
      {phases : List ExecutionPhase}
      → ¬ ((event.component_id ≡ component_id) × (event.attempt_key ≡ attempt_key))
      → PhasesOf component_id attempt_key events phases
      → PhasesOf component_id attempt_key (event ∷ events) phases

-- The phases are the first ones, in their order, each once.
abbrev pub IsInOrder : List ExecutionPhase → Type 0
IsInOrder phases =
    (rest : List ExecutionPhase) × (phases ++ rest
      ≡ context_loaded ∷ first_activity ∷ first_file_change ∷ verification_started
        ∷ structured_output ∷ completed ∷ [])

abbrev place_phase : ℕ → ExecutionPhase
place_phase place =
    if nat_beq place 0
    then context_loaded
    else if nat_beq place 1
    then first_activity
    else if nat_beq place 2
    then first_file_change
    else if nat_beq place 3
    then verification_started
    else if nat_beq place 4
    then structured_output
    else completed

place_phase-phase_place : (phase : ExecutionPhase) → place_phase (phase_place phase) ≡ phase
place_phase-phase_place context_loaded = refl
place_phase-phase_place first_activity = refl
place_phase-phase_place first_file_change = refl
place_phase-phase_place verification_started = refl
place_phase-phase_place structured_output = refl
place_phase-phase_place completed = refl

phase_is-eq : (a b : ExecutionPhase) → phase_is a b ≡ true → a ≡ b
phase_is-eq a b h =
    sym (place_phase-phase_place a)
    ∙ ap place_phase ((nat_beq_iff (phase_place a) (phase_place b)).0 h)
    ∙ place_phase-phase_place b

begins_rest :
    (xs ys : List ExecutionPhase)
    → begins xs ys ≡ true
    → (rest : List ExecutionPhase) × (xs ++ rest ≡ ys)
begins_rest [] ys h = (ys, refl)
begins_rest (x ∷ xs) [] h = cc
begins_rest (x ∷ xs) (y ∷ ys) h = elim (Bool-cases (phase_is x y)) [
  | inl same ↦
      let (rest, e) = begins_rest xs ys (rw same at h) in (rest, λ i. phase_is-eq x y same i ∷ e i)
  | inr other ↦ absurd (cc (rw other at h))
]

phases_of :
    (component_id attempt_key : String) (events : List ExecutionPhaseEvent)
    → PhasesOf component_id attempt_key events (
        map
          (λ (item : ExecutionPhaseEvent). item.phase)
          (events_of (component_id, attempt_key) events))
phases_of component_id attempt_key [] = no_event
phases_of component_id attempt_key (event ∷ events) =
    let key : String × String = (component_id, attempt_key) in
    let later = phases_of component_id attempt_key events in
    elim (Bool-cases (event_key event == key)) [
      | inl own ↦
          let e = (pair_same.same_iff (event_key event) key).0 own in
          rw own (
            own_event (ap (λ (k : String × String). k.0) e) (ap (λ (k : String × String). k.1) e)
              later)
      | inr foreign ↦ rw foreign (
          foreign_event
            (λ (c, a).
              false≢true
                (sym foreign ∙ (pair_same.same_iff (event_key event) key).1 (λ i. (c i, a i))))
            later)
    ]

check_telemetry-begins :
    (library : ClockLibrary) (telemetry : ExecutionTelemetry) (key : String × String)
    → check_telemetry library telemetry ≡ ok tt
    → begins
        (map (λ (item : ExecutionPhaseEvent). item.phase) (events_of key telemetry.events))
        all_phases
      ≡ true
unfolding check_telemetry check_key
check_telemetry-begins library telemetry key h =
    let keys = map event_key telemetry.events in
    let test = λ (item : ExecutionPhaseEvent). event_key item == key in
    let (_, _, h1) =
      >>=-eq-ok (guard (telemetry.schema == execution_telemetry_schema) unsupported_schema) _ h in
    let (_, _, h2) =
      >>=-eq-ok (raise_if (ltb 600 (length telemetry.events)) too_many_events) _ h1 in
    let (_, each, _) =
      >>=-eq-ok (for_each (check_key library telemetry.events) (to_set keys)) _ h2 in
    elim (Bool-cases (contains keys key)) [
      | inl there ↦
          let checked =
            for_each-eq-ok (check_key library telemetry.events) (to_set keys) each
              (contains_elim (to_set keys) key (contains-to_set keys key ∙ there)) in
          let (_, first, _) = >>=-eq-ok (guard _ out_of_order) _ checked in
          guard-eq-ok _ out_of_order first
      | inr missing ↦
          let empty = nil_of_empty (events_of key telemetry.events) (λ item m.
            let (listed, same) = mem_of_mem-keep test telemetry.events m in
            false≢true (
              sym missing
              ∙ ap (contains keys) (sym ((pair_same.same_iff (event_key item) key).0 same))
              ∙ contains_intro keys (mem-map event_key telemetry.events listed))) in
          rw empty refl
    ]

-- Where a phase is recorded, the new telemetry is the old one with one more event, which has that
-- phase, component and attempt; and for every component and attempt, the phases of its events are
-- the first ones in their order, each once.
pub record_phase-IsInOrder :
    (library : ClockLibrary) (before : ExecutionTelemetry) (phase : ExecutionPhase) (now : DateTime)
    (component_id attempt_key : String) (applicable : Bool) {after : ExecutionTelemetry}
    → record_phase library before phase now (component_id, attempt_key) applicable ≡ ok after
    → ((event : ExecutionPhaseEvent) × (after.events ≡ before.events ++ event ∷ [])
        × (event.phase ≡ phase)
        × (event.component_id ≡ component_id)
        × (event.attempt_key ≡ attempt_key))
      × ((component attempt : String)
          → (phases : List ExecutionPhase) × PhasesOf component attempt after.events phases
            × IsInOrder phases)
unfolding record_phase
record_phase-IsInOrder library before phase now component_id attempt_key applicable {after} h =
    let matching = events_of (component_id, attempt_key) before.events in
    let (_, _, h1) = >>=-eq-ok (guard now.is_aware not_aware) _ h in
    let (_, _, h2) = >>=-eq-ok (check_phase library phase (phase_at all_phases matching)) _ h1 in
    let (elapsed, _, h3) = >>=-eq-ok (elapsed_after library now.instant matching) _ h2 in
    let event : ExecutionPhaseEvent = record {
      phase = phase;
      occurred_at = library.to_iso now.instant;
      elapsed_ms = elapsed;
      component_id = component_id;
      attempt_key = attempt_key;
      applicable = applicable;
    } in
    let made : ExecutionTelemetry = record {
      schema = execution_telemetry_schema;
      events = before.events ++ event ∷ [];
    } in
    let (_, fine, h4) = >>=-eq-ok (check_telemetry library made) _ h3 in
    let same : made ≡ after = cc h4 in
    (
      (event, ap (λ (t : ExecutionTelemetry). t.events) (sym same), refl, refl, refl),
      λ component attempt.
          subst
            (λ (t : ExecutionTelemetry).
              (phases : List ExecutionPhase) × PhasesOf component attempt t.events phases
              × IsInOrder phases)
            same
            (
              map (λ (item : ExecutionPhaseEvent). item.phase)
                  (events_of (component, attempt) made.events),
              phases_of component attempt made.events,
              begins_rest _ all_phases
                  (check_telemetry-begins library made (component, attempt) fine),
            ),
    )
