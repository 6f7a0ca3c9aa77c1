-- ===== src/Domain/Execution/Telemetry.antt =====
-- `ExecutionTelemetry` of src/devloop/domain/execution.py: its validation and `record`.
pub mod Ordered
use devloop.Domain.Execution.{
  negative_duration, too_many_events, not_monotonic, incomplete_identity, bad_elapsed, out_of_order,
  all_phases, not_aware, already_complete, bad_timestamp, unsupported_schema, phase_is,
  ExecutionError, ExecutionPhase,
}
use devloop.Prelude.Int.{beq_ℤ, pos, ltb_ℤ, ◌-ℤ◌, ℤ}
use devloop.Prelude.{
  to_set, text_same, for_each, map_result, ◌++◌, length, ltb, ◌>>=◌, ◌||◌, map, some, ◌&&◌,
  raise_if, ok, guard, or_raise, ◌==◌, [], none, not, ◌>>◌, err, false, any, true, keep, Option,
  ◌∷◌, Bool, String, Result, List, pair_same,
}

pub record ExecutionPhaseEvent : Type 0 where
  pub phase : ExecutionPhase
  pub occurred_at : String
  pub elapsed_ms : ℤ
  pub component_id : String
  pub attempt_key : String
  pub applicable : Bool

pub record ExecutionTelemetry : Type 0 where
  pub schema : String
  pub events : List ExecutionPhaseEvent

abbrev pub execution_telemetry_schema : String
execution_telemetry_schema = "devloop.execution-telemetry/v1"

-- A `datetime`: whether it has a time zone, and its instant in UTC.
pub record DateTime : Type 0 where
  pub is_aware : Bool
  pub instant : ℤ

-- What the code takes from Python's `datetime`: `fromisoformat`, with none for its ValueError,
-- `isoformat` of an instant in UTC, and the rounding of a duration to milliseconds.
pub record ClockLibrary : Type 0 where
  pub from_iso : String → Option DateTime
  pub to_iso : ℤ → String
  pub round_ms : ℤ → ℤ

abbrev pub event_key : ExecutionPhaseEvent → String × String
event_key event = (event.component_id, event.attempt_key)

-- `matching`
abbrev pub events_of : String × String → List ExecutionPhaseEvent → List ExecutionPhaseEvent
events_of key = keep (λ item. event_key item == key)

-- `phases == tuple(ExecutionPhase)[: len(phases)]`
abbrev pub begins : List ExecutionPhase → List ExecutionPhase → Bool
begins [] _ = true
begins (_ ∷ _) [] = false
begins (a ∷ xs) (b ∷ ys) = phase_is a b && begins xs ys

-- Some element of `zip(timestamps, timestamps[1:])` decreases.
abbrev pub decreases : List ℤ → Bool
decreases [] = false
decreases (a ∷ []) = false
decreases (a ∷ b ∷ rest) = ltb_ℤ b a || decreases (b ∷ rest)

-- `phases[count]`, with none where the tuple ends.
abbrev pub phase_at : List ExecutionPhase → List ExecutionPhaseEvent → Option ExecutionPhase
phase_at [] _ = none
phase_at (phase ∷ phases) [] = some phase
phase_at (phase ∷ phases) (_ ∷ events) = phase_at phases events

abbrev pub last_of : ExecutionPhaseEvent → List ExecutionPhaseEvent → ExecutionPhaseEvent
last_of event [] = event
last_of event (next ∷ rest) = last_of next rest

module _ (library : ClockLibrary) where
  open library use {from_iso, to_iso, round_ms}

  -- `_timestamp`
  unfoldable pub timestamp : String → Result ExecutionError ℤ
  timestamp value = or_raise bad_timestamp (from_iso value) >>= λ parsed.
      guard parsed.is_aware not_aware >>= λ _. ok parsed.instant

  abbrev pub elapsed_differs : ℤ → List ExecutionPhaseEvent → List ℤ → Bool
  elapsed_differs first (item ∷ events) (t ∷ times) =
      not (beq_ℤ item.elapsed_ms (round_ms (t -ℤ first))) || elapsed_differs first events times
  elapsed_differs first _ _ = false

  abbrev pub check_elapsed : List ExecutionPhaseEvent → List ℤ → Result ExecutionError Unit
  check_elapsed events [] = ok tt
  check_elapsed events (first ∷ rest) =
      raise_if (elapsed_differs first events (first ∷ rest)) bad_elapsed

  -- The body of the loop over the keys.
  unfoldable pub check_key : List ExecutionPhaseEvent → String × String → Result ExecutionError Unit
  unfolding timestamp ◌-ℤ◌
  check_key events key = do
    let matching = events_of key events
    guard (begins (map (λ (item : ExecutionPhaseEvent). item.phase) matching) all_phases)
        out_of_order
    raise_if
        (any (λ (item : ExecutionPhaseEvent). item.component_id == "" || item.attempt_key == "")
          matching)
        incomplete_identity
    timestamps ← map_result (λ (item : ExecutionPhaseEvent). timestamp item.occurred_at) matching
    raise_if (decreases timestamps) not_monotonic
    check_elapsed matching timestamps

  -- `ExecutionTelemetry.__post_init__`. The order of the keys decides only which error is raised.
  unfoldable pub check_telemetry : ExecutionTelemetry → Result ExecutionError Unit
  unfolding check_key
  check_telemetry telemetry = do
    guard (telemetry.schema == execution_telemetry_schema) unsupported_schema
    raise_if (ltb 600 (length telemetry.events)) too_many_events
    for_each (check_key telemetry.events) (to_set (map event_key telemetry.events))
    raise_if (any (λ (item : ExecutionPhaseEvent). ltb_ℤ item.elapsed_ms (pos 0)) telemetry.events)
        negative_duration

  abbrev pub check_phase : ExecutionPhase → Option ExecutionPhase → Result ExecutionError Unit
  check_phase phase none = err already_complete
  check_phase phase (some expected) = guard (phase_is phase expected) out_of_order

  -- The elapsed time of an event at `now` after the matching ones. Their texts were checked when
  -- the telemetry was made, so that they are parsed without error.
  abbrev pub elapsed_after : ℤ → List ExecutionPhaseEvent → Result ExecutionError ℤ
  unfolding timestamp ◌-ℤ◌
  elapsed_after now [] = ok (pos 0)
  elapsed_after now (first ∷ rest) = do
    previous ← timestamp (last_of first rest).occurred_at
    start ← timestamp first.occurred_at
    raise_if (ltb_ℤ now previous) not_monotonic
    ok (round_ms (now -ℤ start))

  -- `ExecutionTelemetry.record`
  unfoldable pub record_phase :
      ExecutionTelemetry
      → ExecutionPhase
      → DateTime
      → String × String
      → Bool
      → Result ExecutionError ExecutionTelemetry
  record_phase telemetry phase occurred_at (component_id, attempt_key) applicable =
      let matching = events_of (component_id, attempt_key) telemetry.events in
      guard occurred_at.is_aware not_aware >>= λ _.
      check_phase phase (phase_at all_phases matching) >>= λ _.
      elapsed_after occurred_at.instant matching >>= λ elapsed.
      let event : ExecutionPhaseEvent = record {
        phase = phase;
        occurred_at = to_iso occurred_at.instant;
        elapsed_ms = elapsed;
        component_id = component_id;
        attempt_key = attempt_key;
        applicable = applicable;
      } in
      let after : ExecutionTelemetry = record {
        schema = execution_telemetry_schema;
        events = telemetry.events ++ event ∷ [];
      } in
      check_telemetry after >>= λ _. ok after

-- `ExecutionTelemetry.has_phase`
unfoldable pub has_phase : ExecutionTelemetry → String × String → ExecutionPhase → Bool
has_phase telemetry key phase =
    any (λ item. event_key item == key && phase_is item.phase phase) telemetry.events
