-- ===== src/Domain/Execution/Samples.antt =====
-- A first and a second phase, and the theorem about src/devloop/domain/execution.py at them.
use devloop.Prelude.Int.{pos}
use devloop.Domain.Execution.Telemetry.Ordered.{record_phase-IsInOrder, PhasesOf, IsInOrder}
use devloop.Domain.Execution.Telemetry.{
  execution_telemetry_schema, check_telemetry, ExecutionPhaseEvent, record_phase,
  ExecutionTelemetry, DateTime, ClockLibrary,
}
use devloop.Prelude.{List, String, ◌++◌, refl, ok, [], ◌∷◌, ◌≡◌, true, some, text_same, pair_same}
use devloop.Domain.Execution.{ExecutionPhase, context_loaded, first_activity}

-- Every text is the instant 7, and no duration is rounded.
abbrev clock : ClockLibrary
clock = record {
  from_iso = λ text. some (record { is_aware = true; instant = pos 7 });
  to_iso = λ instant. "t";
  round_ms = λ duration. duration;
}

abbrev now : DateTime
now = record { is_aware = true; instant = pos 7 }

abbrev event : ExecutionPhase → ExecutionPhaseEvent
event phase = record {
  phase = phase;
  occurred_at = "t";
  elapsed_ms = pos 0;
  component_id = "dev";
  attempt_key = "run";
  applicable = true;
}

abbrev started : ExecutionTelemetry
started = record { schema = execution_telemetry_schema; events = event context_loaded ∷ [] }

abbrev active : ExecutionTelemetry
active = record {
  schema = execution_telemetry_schema;
  events = event context_loaded ∷ event first_activity ∷ [];
}

activity_recorded : record_phase clock started first_activity now ("dev", "run") true ≡ ok active
unfolding record_phase check_telemetry
activity_recorded = refl

record_phase_example :
    ((e : ExecutionPhaseEvent) × (active.events ≡ started.events ++ e ∷ [])
      × (e.phase ≡ first_activity)
      × (e.component_id ≡ "dev")
      × (e.attempt_key ≡ "run"))
    × ((component attempt : String)
        → (phases : List ExecutionPhase) × PhasesOf component attempt active.events phases
          × IsInOrder phases)
record_phase_example =
    record_phase-IsInOrder clock started first_activity now "dev" "run" true activity_recorded
