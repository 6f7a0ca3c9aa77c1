-- ===== src/Domain/Scheduler.antt =====
-- Issue states, the choice of the next issue and the issue board of
-- src/devloop/domain/scheduler.py. A dict `{item.issue_id: item for item in states}` is a function:
-- the last state with the number is its value. A set of blocker statuses is the list of them.
pub mod Refresh
pub mod Select
pub mod Board
mod Samples
use devloop.Prelude.{
  text_same, not, ◌==◌, none, any, ◌||◌, some, ◌∷◌, map, [], true, all, find_last, find, false,
  keep, List, Bool, String, if◌then◌else◌, Option,
}
use devloop.Prelude.Int.{ℤ, pos, ltb_ℤ, ◌+ℤ◌}
use devloop.Domain.Development.{IssueStatus, IssueRuntimeState}
use devloop.Domain.Planning.{PlannedIssue, PlanningPackage}
use devloop.Domain.Attempts.{IssueAttemptRecord}

-- `by_id.get(issue_id)`
abbrev pub state_by_id : List IssueRuntimeState → String → Option IssueRuntimeState
state_by_id states issue_id =
    find_last (λ (item : IssueRuntimeState). item.issue_id == issue_id) states

-- The statuses that a refresh leaves alone.
abbrev pub is_kept : IssueStatus → Bool
is_kept IssueStatus.planned = false
is_kept IssueStatus.pending = false
is_kept IssueStatus.ready = false
is_kept _ = true

abbrev pub is_completed : IssueStatus → Bool
is_completed IssueStatus.completed = true
is_completed _ = false

abbrev pub is_ready : IssueStatus → Bool
is_ready IssueStatus.ready = true
is_ready _ = false

abbrev pub test_status : (IssueStatus → Bool) → Option IssueRuntimeState → Bool
test_status test none = false
test_status test (some state) = test state.status

-- `by_id.get(item) is not None and by_id[item].status is IssueStatus.COMPLETED`
unfoldable pub is_complete : List IssueRuntimeState → String → Bool
is_complete states issue_id = test_status is_completed (state_by_id states issue_id)

abbrev pub status_or_planned : Option IssueRuntimeState → IssueStatus
status_or_planned none = IssueStatus.planned
status_or_planned (some state) = state.status

-- `IssueRuntimeState(issue_id, status)` or `replace(existing, status=status)`.
abbrev pub with_status : Option IssueRuntimeState → String → IssueStatus → IssueRuntimeState
with_status none issue_id status = record {
  issue_id = issue_id;
  status = status;
  current_step = none;
  repository_baseline = none;
  owned_paths = [];
}
with_status (some existing) issue_id status = record existing { status = status }

unfoldable pub refreshed_status : List IssueRuntimeState → PlannedIssue → IssueStatus
refreshed_status states issue =
    let status = status_or_planned (state_by_id states issue.issue_id) in
    if is_kept status
    then status
    else if all (is_complete states) issue.dependencies
    then IssueStatus.ready
    else IssueStatus.pending

-- The body of the loop of `refresh_issue_states`.
unfoldable pub refresh_issue : List IssueRuntimeState → PlannedIssue → IssueRuntimeState
refresh_issue states issue =
    with_status (state_by_id states issue.issue_id) issue.issue_id (refreshed_status states issue)

unfoldable pub refresh_issue_states :
    PlanningPackage → List IssueRuntimeState → List IssueRuntimeState
refresh_issue_states plan states = map (refresh_issue states) plan.issues

unfoldable pub select_next_ready_issue :
    PlanningPackage → List IssueRuntimeState → Option PlannedIssue
select_next_ready_issue plan states =
    find (λ (item : PlannedIssue). test_status is_ready (state_by_id states item.issue_id))
      plan.issues

pub data DependencyReadiness : Type 0 where
  ready waiting blocked failed : DependencyReadiness

pub record IssueBoardRow : Type 0 where
  pub issue_id : String
  pub position : ℤ
  pub title : String
  pub status : IssueStatus
  pub dependency_readiness : DependencyReadiness
  pub current_step : Option String
  pub attempt_number : ℤ
  pub blocking_dependencies : List String

abbrev max_ℤ : ℤ → ℤ → ℤ
max_ℤ a b = if ltb_ℤ a b then b else a

-- The value of `attempts_by_issue` for an issue after the loop over the attempts.
unfoldable pub archived_attempt : String → ℤ → List IssueAttemptRecord → ℤ
archived_attempt issue_id highest [] = highest
archived_attempt issue_id highest (attempt ∷ rest) =
    archived_attempt issue_id
      (if attempt.issue_id == issue_id then max_ℤ highest attempt.attempt_number else highest) rest

unfoldable pub blockers_of : List IssueRuntimeState → PlannedIssue → List String
blockers_of states issue =
    keep (λ dependency. not (is_complete states dependency)) issue.dependencies

abbrev pub is_failed : IssueStatus → Bool
is_failed IssueStatus.failed = true
is_failed _ = false

abbrev pub is_blocked : IssueStatus → Bool
is_blocked IssueStatus.blocked = true
is_blocked _ = false

unfoldable pub readiness_of : List IssueRuntimeState → List String → DependencyReadiness
readiness_of states [] = ready
readiness_of states (first ∷ rest) =
    let blockers = first ∷ rest in
    if any (λ item. test_status is_failed (state_by_id states item)) blockers
    then failed
    else if any (λ item. test_status is_blocked (state_by_id states item)) blockers
    then blocked
    else waiting

abbrev pub in_progress : IssueStatus → Bool
in_progress IssueStatus.in_development = true
in_progress IssueStatus.in_review = true
in_progress IssueStatus.in_qa = true
in_progress _ = false

-- `_current_step`
unfoldable pub current_step_of : IssueStatus → Option String
current_step_of IssueStatus.in_development = some "development"
current_step_of IssueStatus.changes_requested = some "development"
current_step_of IssueStatus.in_review = some "code-review"
current_step_of IssueStatus.in_qa = some "qa"
current_step_of _ = none

abbrev pub status_or_pending : Option IssueRuntimeState → IssueStatus
status_or_pending none = IssueStatus.pending
status_or_pending (some state) = state.status

unfoldable pub row_step : Option IssueRuntimeState → Option String
unfolding current_step_of
row_step none = current_step_of IssueStatus.pending
row_step (some state) =
    if is_blocked state.status || is_failed state.status
    then state.current_step
    else current_step_of state.status

-- The body of the loop of `project_issue_board`.
unfoldable pub board_row :
    List IssueRuntimeState → List IssueAttemptRecord → PlannedIssue → IssueBoardRow
unfolding blockers_of readiness_of row_step archived_attempt ◌+ℤ◌
board_row states attempts issue =
    let blockers = blockers_of states issue in
    let state = state_by_id states issue.issue_id in
    let status = status_or_pending state in
    let archived = archived_attempt issue.issue_id (pos 0) attempts in
    record {
      issue_id = issue.issue_id;
      position = issue.position;
      title = issue.title;
      status = status;
      dependency_readiness = readiness_of states blockers;
      current_step = row_step state;
      attempt_number = if in_progress status then archived +ℤ pos 1 else archived;
      blocking_dependencies = blockers;
    }

unfoldable pub project_issue_board :
    PlanningPackage → List IssueRuntimeState → List IssueAttemptRecord → List IssueBoardRow
unfolding board_row
project_issue_board plan states attempts = map (board_row states attempts) plan.issues
