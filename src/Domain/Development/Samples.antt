-- ===== src/Domain/Development/Samples.antt =====
-- A rework request, and the theorem about src/devloop/domain/development.py at it.
use devloop.Prelude.{refl, ◌↔◌, ok, ◌≡◌, [], List, String, ◌∷◌}
use devloop.Domain.Development.{
  ReworkResolution, ReworkResolutionStatus, validate_rework_resolutions,
}
use devloop.Domain.Development.Rework.{IsAnswered, validate_rework_iff}

abbrev answer : String → ReworkResolutionStatus → ReworkResolution
answer rework_id status = record { rework_id = rework_id; status = status; evidence = "" }

abbrev answers : List ReworkResolution
answers =
    answer "b" ReworkResolutionStatus.resolved
    ∷ answer "a" ReworkResolutionStatus.not_applicable
    ∷ []

validate_rework_example :
    (validate_rework_resolutions ("a" ∷ "b" ∷ []) answers ≡ ok tt)
    ↔ IsAnswered ("a" ∷ "b" ∷ []) answers
validate_rework_example = validate_rework_iff ("a" ∷ "b" ∷ []) answers

validate_rework_run : validate_rework_resolutions ("a" ∷ "b" ∷ []) answers ≡ ok tt
unfolding validate_rework_resolutions
validate_rework_run = refl
