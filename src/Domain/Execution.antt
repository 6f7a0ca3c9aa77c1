-- ===== src/Domain/Execution.antt =====
-- Execution budgets, profiles and telemetry of src/devloop/domain/execution.py. A number of seconds
-- is counted in thousandths, so that it is whole, and an instant in microseconds.
pub mod Telemetry
mod Samples
use devloop.Prelude.Int.{beq_ℤ, ltb_ℤ, pos, leb_ℤ, ℤ}
use devloop.Prelude.{
  is_some, ◌&&◌, if◌then◌else◌, text_same, ◌||◌, keep, ◌==◌, or_raise, guard, find_last, raise_if,
  [], err, false, ok, not, nat_beq, true, ◌>>◌, ◌∷◌, Result, ℕ, String, Bool, List,
}

pub data ExecutionProfileId : Type 0 where
  full lightweight : ExecutionProfileId

pub data ExecutionPhase : Type 0 where
  context_loaded first_activity first_file_change verification_started structured_output completed :
      ExecutionPhase

pub data ExecutionError : Type 0 where
  missing_version bad_timeout bad_checkpoint unsupported_schema incomplete_provenance
        too_many_events out_of_order incomplete_identity bad_timestamp not_aware not_monotonic
        bad_elapsed negative_duration already_complete no_full_profile several_profiles :
      ExecutionError

-- The place of a member in the enum.
abbrev pub phase_place : ExecutionPhase → ℕ
phase_place context_loaded = 0
phase_place first_activity = 1
phase_place first_file_change = 2
phase_place verification_started = 3
phase_place structured_output = 4
phase_place completed = 5

abbrev pub phase_is : ExecutionPhase → ExecutionPhase → Bool
phase_is a b = nat_beq (phase_place a) (phase_place b)

-- `tuple(ExecutionPhase)`
abbrev pub all_phases : List ExecutionPhase
all_phases =
    context_loaded ∷ first_activity ∷ first_file_change ∷ verification_started ∷ structured_output
    ∷ completed ∷ []

pub record ExecutionBudget : Type 0 where
  pub version : String
  pub timeout_seconds : ℤ
  pub checkpoint_seconds : ℤ

-- `ExecutionBudget.__post_init__`
unfoldable pub check_budget : ExecutionBudget → Result ExecutionError Unit
check_budget budget = do
  raise_if (budget.version == "") missing_version
  raise_if (leb_ℤ budget.timeout_seconds (pos 0) || ltb_ℤ (pos 3600000) budget.timeout_seconds)
      bad_timeout
  raise_if
      (leb_ℤ budget.checkpoint_seconds (pos 0)
        || ltb_ℤ budget.timeout_seconds budget.checkpoint_seconds)
      bad_checkpoint

pub record ExecutionProfile : Type 0 where
  pub schema : String
  pub version : String
  pub component_id : String
  pub profile_id : ExecutionProfileId
  pub model : String
  pub reasoning_effort : String
  pub budget : ExecutionBudget

abbrev pub execution_profile_schema : String
execution_profile_schema = "devloop.execution-profile/v1"

abbrev pub policy_version : String
policy_version = "1.0.0"

-- `ExecutionProfile.__post_init__`
unfoldable pub check_profile : ExecutionProfile → Result ExecutionError Unit
check_profile profile = do
  guard (profile.schema == execution_profile_schema) unsupported_schema
  raise_if
      (profile.version == ""
        || profile.component_id == ""
        || profile.model == ""
        || profile.reasoning_effort == "")
      incomplete_provenance

-- `ExecutionProfile.full` and `ExecutionProfile.lightweight`, which differ in the first argument.
-- The budget is made, and checked, before the profile.
unfoldable pub new_profile :
    ExecutionProfileId → String → String → String → ℤ → ℤ → Result ExecutionError ExecutionProfile
unfolding check_budget check_profile
new_profile profile_id component_id model reasoning_effort timeout_seconds checkpoint_seconds = do
  let budget : ExecutionBudget = record {
    version = policy_version;
    timeout_seconds = timeout_seconds;
    checkpoint_seconds = checkpoint_seconds;
  }
  check_budget budget
  let profile : ExecutionProfile = record {
    schema = execution_profile_schema;
    version = policy_version;
    component_id = component_id;
    profile_id = profile_id;
    model = model;
    reasoning_effort = reasoning_effort;
    budget = budget;
  }
  check_profile profile
  ok profile

abbrev pub is_full : ExecutionProfile → Bool
is_full profile = elim profile.profile_id [ full ↦ true | lightweight ↦ false ]

abbrev pub is_lightweight : ExecutionProfile → Bool
is_lightweight profile = not (is_full profile)

-- `available[...]`: the last profile with the identifier.
unfoldable pub execution_profile_for_issue :
    List ExecutionProfile → ℤ → ℤ → Result ExecutionError ExecutionProfile
execution_profile_for_issue profiles acceptance_count rework_count =
    let light = find_last is_lightweight profiles in
    let whole = or_raise no_full_profile (find_last is_full profiles) in
    if leb_ℤ acceptance_count (pos 3) && beq_ℤ rework_count (pos 0) && is_some light
    then or_raise no_full_profile light
    else whole

unfoldable pub locked_execution_profile :
    List ExecutionProfile → String → ExecutionProfile → Result ExecutionError ExecutionProfile
locked_execution_profile profiles component_id fallback =
    choose (keep (λ (item : ExecutionProfile). item.component_id == component_id) profiles)
  where
    choose : List ExecutionProfile → Result ExecutionError ExecutionProfile
    choose [] = ok fallback
    choose (profile ∷ []) = ok profile
    choose _ = err several_profiles
