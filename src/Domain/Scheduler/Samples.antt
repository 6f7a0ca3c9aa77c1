-- ===== src/Domain/Scheduler/Samples.antt =====
-- A plan of three issues, and the theorems about src/devloop/domain/scheduler.py at it.
use devloop.Prelude.Int.{ℤ, ◌+ℤ◌, pos}
use devloop.Prelude.{
  text_same, arith, contains_elim, true, ◌||◌, all, some, refl, contains, Memᴰ, not, ◌≢◌, none, ◌≡◌,
  ◌∷◌, Bool, List, [], String, all_elim,
}
use devloop.Domain.Scheduler.{
  refresh_issue_states, refresh_issue, refreshed_status, select_next_ready_issue, is_complete,
  board_row, ready,
}
use devloop.Domain.Scheduler.Refresh.{IsClosed, issue_ids, refresh_idempotent}
use devloop.Domain.Scheduler.Select.{CanStart, select_refreshed}
use devloop.Domain.Scheduler.Board.{IsWorkedOn, IsHighest, board_refreshed, board_row-attempts}
use devloop.Domain.Attempts.{IssueAttemptRecord, AttemptStatus}
use devloop.Domain.Development.{IssueStatus, IssueRuntimeState}
use devloop.Domain.Planning.{PlannedIssue, PlanningPackage}
use devloop.Domain.Outcomes.{StepOutcome}

abbrev planned_issue : String → List String → PlannedIssue
planned_issue issue_id dependencies = record {
  issue_id = issue_id;
  position = pos 1;
  title = "";
  filename = "";
  content_hash = "";
  requirement_ids = [];
  dependencies = dependencies;
  acceptance_criterion_ids = [];
  markdown = "";
}

abbrev second : PlannedIssue
second = planned_issue "B" ("A" ∷ [])

abbrev plan : PlanningPackage
plan = record {
  root = "";
  prd_markdown = "";
  prd_hash = "";
  issue_set_hash = "";
  issues = planned_issue "A" [] ∷ second ∷ planned_issue "C" ("A" ∷ "B" ∷ []) ∷ [];
}

abbrev state : String → IssueStatus → IssueRuntimeState
state issue_id status = record {
  issue_id = issue_id;
  status = status;
  current_step = none;
  repository_baseline = none;
  owned_paths = [];
}

abbrev states : List IssueRuntimeState
states = state "A" IssueStatus.completed ∷ state "B" IssueStatus.pending ∷ []

refresh_run :
    refresh_issue_states plan states
    ≡ state "A" IssueStatus.completed
      ∷ state "B" IssueStatus.ready
      ∷ state "C" IssueStatus.pending
      ∷ []
unfolding refresh_issue_states refresh_issue refreshed_status is_complete
refresh_run = refl

implies : (b c : Bool) → (not b || c) ≡ true → b ≡ true → c ≡ true
implies b c h k = ground arith

closed : IsClosed plan
closed issue dependency m h =
    all_elim (λ d. contains (issue_ids plan) d) issue.dependencies
      (all_elim (λ (i : PlannedIssue). all (λ d. contains (issue_ids plan) d) i.dependencies)
        plan.issues refl m)
      (contains_elim issue.dependencies dependency h)

refresh_idempotent_example :
    refresh_issue_states plan (refresh_issue_states plan states) ≡ refresh_issue_states plan states
refresh_idempotent_example = refresh_idempotent plan states closed

select_refreshed_example :
    ((issue : PlannedIssue)
      → select_next_ready_issue plan (refresh_issue_states plan states) ≡ some issue
      → Memᴰ issue plan.issues × CanStart states issue)
    × (select_next_ready_issue plan (refresh_issue_states plan states) ≡ none
        → (issue : PlannedIssue) → Memᴰ issue plan.issues
        → ¬ CanStart states issue)
select_refreshed_example = select_refreshed plan states (refl, (refl, (refl, tt)))

board_refreshed_example :
    ((board_row (refresh_issue_states plan states) [] second).status ≡ IssueStatus.ready
      → (board_row (refresh_issue_states plan states) [] second).dependency_readiness ≡ ready)
    × ((board_row (refresh_issue_states plan states) [] second).status ≡ IssueStatus.pending
        → (board_row (refresh_issue_states plan states) [] second).dependency_readiness ≢ ready)
board_refreshed_example =
    board_refreshed plan states [] closed (refl, (refl, (refl, tt))) second
      (Memᴰ.tail (Memᴰ.head refl))

abbrev attempt : IssueAttemptRecord
attempt = record {
  issue_id = "B";
  attempt_number = pos 1;
  status = AttemptStatus.failed;
  outcome = StepOutcome.failed;
  implementation = none;
  review = none;
  qa_result = none;
  rework_request = none;
  development_thread = none;
  review_thread = none;
  qa_thread = none;
}

abbrev busy : List IssueRuntimeState
busy = state "A" IssueStatus.completed ∷ state "B" IssueStatus.in_review ∷ []

board_attempts_example :
    let row = board_row busy (attempt ∷ []) second in
    (highest : ℤ) × IsHighest "B" (attempt ∷ []) highest
    × (IsWorkedOn row.status → row.attempt_number ≡ highest +ℤ pos 1)
    × (¬ IsWorkedOn row.status → row.attempt_number ≡ highest)
board_attempts_example = board_row-attempts busy (attempt ∷ []) second
