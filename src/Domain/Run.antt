-- ===== src/Domain/Run.antt =====
-- The snapshot of a workflow run, src/devloop/domain/run.py.
use devloop.Json.{Json}
use devloop.Domain.Attempts.{IssueAttemptRecord}
use devloop.Prelude.{Bool, true, false, String, ℕ, Option, List}

pub data WorkflowRunStatus : Type 0 where
  created running paused awaiting_user completed failed cancelled : WorkflowRunStatus

-- `RunEventType`
pub data RunEventType : Type 0 where
  run_created analysis_attempt_started analysis_thread_bound analysis_turn_started
        analysis_clarification_requested analysis_draft_saved run_paused run_resumed
        analysis_accepted workspace_preparation_started workspace_preflight_failed
        workspace_prepared context_manifest_saved development_thread_bound development_turn_started
        development_succeeded development_blocked development_approval_required
        development_turn_interrupted verification_turn_interrupted issue_attempt_started
        issue_retry_limit_reached blocked_retry_authorized failed_reset_authorized
        transient_backend_retry_scheduled issue_attempt_archived scheduler_drained scheduler_paused
        development_failed review_input_saved review_thread_bound review_turn_started
        review_succeeded review_changes_requested review_blocked review_failed qa_input_saved
        qa_thread_bound qa_turn_started qa_succeeded qa_changes_requested qa_blocked qa_failed
        finalization_started run_completed run_cancelled operation_started operation_completed
        operation_unknown recovery_attempt_started execution_phase_recorded execution_stalled
        approval_decision_recorded execution_profile_selected :
      RunEventType

-- `OperationStatus`: IDLE, RUNNING and UNKNOWN.
pub data OperationStatus : Type 0 where
  operation_idle operation_running operation_unknown : OperationStatus

pub record OperationState : Type 0 where
  pub item_id : Option String
  pub status : OperationStatus

pub record RunLease : Type 0 where
  pub lease_id : String
  pub process_id : ℕ
  pub acquired_at : String

-- The fields of `WorkflowRunSnapshot` that the store reads or writes. `clarification` is
-- that of `analysis`, and `content` stands for the others.
pub record WorkflowRunSnapshot : Type 0 where
  pub run_id : String
  pub feature_title : String
  pub run_status : WorkflowRunStatus
  pub lease : RunLease
  pub event_sequence : ℕ
  pub updated_at : String
  pub operation : OperationState
  pub clarification : Option String
  pub attempts : List IssueAttemptRecord
  pub content : Json

-- `terminal`
abbrev pub is_terminal : WorkflowRunStatus → Bool
is_terminal completed = true
is_terminal failed = true
is_terminal cancelled = true
is_terminal _ = false

abbrev pub is_running : WorkflowRunStatus → Bool
is_running running = true
is_running _ = false

abbrev pub is_operation_running : OperationStatus → Bool
is_operation_running operation_running = true
is_operation_running _ = false
