-- ===== src/Domain/Attempts/Samples.antt =====
-- Attempt histories, and the theorems about src/devloop/domain/scheduler.py at them.
use devloop.Prelude.Int.{int_same, pos}
use devloop.Prelude.{
  Memᴰ, pair_same, text_same, map, ◌+◌, refl, [], some, ◌≤◌, Distinct, none, Option, ok, ◌∷◌, ◌↔◌,
  String, List, length, ◌≡◌,
}
use devloop.Domain.Attempts.{
  IssueAttemptRecord, AttemptStatus, RetryPolicy, CompletedResultSets, validate_attempt_record,
  validate_attempt_history, completed_result_sets, completed_attempts, archived_execution_threads,
  identity, transient_retry_delays, new_policy,
}
use devloop.Domain.Attempts.History.{AllValid, validate_history_iff, completed_results_lem}
use devloop.Domain.Attempts.Retries.{Attempted, Attempted-iff, IsBackoff, transient_delays_lem}
use devloop.Domain.Development.{ArtifactRef}
use devloop.Domain.Outcomes.{StepOutcome}

abbrev artifact : String → Option ArtifactRef
artifact path = some (record { path = path; content_hash = "h" })

abbrev history : List IssueAttemptRecord
history =
    record {
      issue_id = "ISSUE-001";
      attempt_number = pos 1;
      status = AttemptStatus.changes_requested;
      outcome = StepOutcome.changes_requested;
      implementation = artifact "i1";
      review = artifact "r1";
      qa_result = none;
      rework_request = artifact "w1";
      development_thread = some "t1";
      review_thread = some "t2";
      qa_thread = none;
    }
    ∷ record {
      issue_id = "ISSUE-001";
      attempt_number = pos 2;
      status = AttemptStatus.completed;
      outcome = StepOutcome.succeeded;
      implementation = artifact "i2";
      review = artifact "r2";
      qa_result = artifact "q2";
      rework_request = none;
      development_thread = some "t3";
      review_thread = some "t4";
      qa_thread = some "t5";
    }
    ∷ []

abbrev policy : RetryPolicy
policy = record { max_rework_cycles_per_issue = 2; max_transient_backend_retries = 5 }

policy_run : new_policy (pos 2) (pos 5) ≡ ok policy
unfolding new_policy
policy_run = refl

history_accepted : validate_attempt_history history ≡ ok tt
unfolding validate_attempt_history validate_attempt_record
history_accepted = refl

validate_history_example : (validate_attempt_history history ≡ ok tt) ↔ (
    AllValid history
    × Distinct (map identity history)
    × Distinct (archived_execution_threads history))
validate_history_example = validate_history_iff history

completed_results_example :
    (sets : CompletedResultSets) × (completed_result_sets history ≡ ok sets)
    × (map some sets.implementations
        ≡ map (λ (r : IssueAttemptRecord). r.implementation) (completed_attempts history))
    × (map some sets.reviews
        ≡ map (λ (r : IssueAttemptRecord). r.review) (completed_attempts history))
    × (map some sets.qa_results
        ≡ map (λ (r : IssueAttemptRecord). r.qa_result) (completed_attempts history))
    × ((r : IssueAttemptRecord)
        → Memᴰ r (completed_attempts history)
          ↔ (Memᴰ r history × (r.status ≡ AttemptStatus.completed)))
completed_results_example = completed_results_lem history history_accepted

Attempted_example :
    Attempted policy (pos 4) 1 ↔ ((1 + 1 ≤ 4) × (1 ≤ policy.max_rework_cycles_per_issue))
Attempted_example = Attempted-iff policy 4 1

transient_delays_run : transient_retry_delays policy ≡ 1 ∷ 2 ∷ 4 ∷ 8 ∷ 8 ∷ []
unfolding transient_retry_delays
transient_delays_run = refl

transient_delays_example :
    (length (transient_retry_delays policy) ≡ policy.max_transient_backend_retries)
    × IsBackoff 1 (transient_retry_delays policy)
transient_delays_example = transient_delays_lem policy
