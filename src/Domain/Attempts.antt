-- ===== src/Domain/Attempts.antt =====
-- Issue attempts and the retry policy of src/devloop/domain/scheduler.py: their validation, their
-- history and the results that completed ones hold. Delays are counted in quarters of a second,
-- the base delay of the source, so that they are whole numbers.
pub mod History
pub mod Retries
mod Samples
use devloop.Prelude.{
  is_missing, ℕ, zero, suc, ◌+◌, ◌-◌, ◌*◌, ◌^◌, ◌≤◌, String, List, [], ◌∷◌, ◌++◌, map, Option, none,
  some, Bool, true, false, not, ◌||◌, ◌&&◌, Result, ok, err, guard, raise_if, for_each, ◌>>=◌, ◌>>◌,
  contains, add, all_unique, any, keep, length, if◌then◌else◌, text_same, pair_same, Comparable,
  ltb,
}
use devloop.Prelude.Int.{leb_ℤ, ◌-ℤ◌, ℤ, pos, ltb_ℤ, lt_one, int_same, ◌+ℤ◌}
use devloop.Domain.Development.{ArtifactRef}
use devloop.Domain.Outcomes.{StepOutcome}

pub data AttemptStatus : Type 0 where
  active changes_requested blocked failed completed : AttemptStatus

pub data AttemptError : Type 0 where
  bad_retry_limit not_positive bad_attempt_count cannot_archive_active incompatible_outcome
        missing_results shared_threads missing_rework repeated_identity reused_thread :
      AttemptError

pub record RetryPolicy : Type 0 where
  pub max_rework_cycles_per_issue : ℕ
  pub max_transient_backend_retries : ℕ

-- `0 <= value <= 100`; the annotations of the source make the values integers.
abbrev pub in_limits : ℤ → Bool
in_limits (pos n) = not (ltb 100 n)
in_limits _ = false

abbrev pub magnitude : ℤ → ℕ
magnitude (pos n) = n
magnitude _ = 0

-- `RetryPolicy(...)` with its `__post_init__`.
unfoldable pub new_policy : ℤ → ℤ → Result AttemptError RetryPolicy
new_policy reworks retries = do
  guard (in_limits reworks) bad_retry_limit
  guard (in_limits retries) bad_retry_limit
  ok (record {
    max_rework_cycles_per_issue = magnitude reworks;
    max_transient_backend_retries = magnitude retries;
  })

-- `TRANSIENT_RETRY_MAX_SECONDS`, in quarters of a second.
abbrev pub max_delay : ℕ
max_delay = 8

abbrev pub delay : ℕ → ℕ
delay index = if ltb (2 ^ index) max_delay then 2 ^ index else max_delay

-- The delays of `range(start, start + count)`.
unfoldable pub delays_from : ℕ → ℕ → List ℕ
delays_from start zero = []
delays_from start (suc count) = delay start ∷ delays_from (suc start) count

unfoldable pub transient_retry_delays : RetryPolicy → List ℕ
unfolding delays_from
transient_retry_delays policy = delays_from 0 policy.max_transient_backend_retries

pub record IssueAttemptRecord : Type 0 where
  pub issue_id : String
  pub attempt_number : ℤ
  pub status : AttemptStatus
  pub outcome : StepOutcome
  pub implementation : Option ArtifactRef
  pub review : Option ArtifactRef
  pub qa_result : Option ArtifactRef
  pub rework_request : Option ArtifactRef
  pub development_thread : Option String
  pub review_thread : Option String
  pub qa_thread : Option String

-- The last argument is `changes_requested_attempts`; the inner `None` means that no cycle is left.
unfoldable pub next_rework_attempt_number :
    RetryPolicy → ℤ → Option ℤ → Result AttemptError (Option ℤ)
unfolding ◌+ℤ◌ ◌-ℤ◌
next_rework_attempt_number policy current none = do
  raise_if (lt_one current) not_positive
  let rework_cycles_used = current -ℤ pos 1
  ok (
      if leb_ℤ (pos policy.max_rework_cycles_per_issue) rework_cycles_used
      then none
      else some (current +ℤ pos 1))
next_rework_attempt_number policy current (some requested) = do
  raise_if (lt_one current) not_positive
  raise_if (lt_one requested) bad_attempt_count
  ok (
      if ltb_ℤ (pos policy.max_rework_cycles_per_issue) requested
      then none
      else some (current +ℤ pos 1))

-- The values that are not `None`.
abbrev pub present {ℓ} : {A : Type ℓ} → List (Option A) → List A
present [] = []
present (none ∷ rest) = present rest
present (some a ∷ rest) = a ∷ present rest

abbrev pub phase_threads : IssueAttemptRecord → List (Option String)
phase_threads r = r.development_thread ∷ r.review_thread ∷ r.qa_thread ∷ []

-- `expected_outcome[status] is outcome`
unfoldable pub outcome_fits : AttemptStatus → StepOutcome → Bool
outcome_fits AttemptStatus.changes_requested StepOutcome.changes_requested = true
outcome_fits AttemptStatus.blocked StepOutcome.blocked = true
outcome_fits AttemptStatus.failed StepOutcome.failed = true
outcome_fits AttemptStatus.completed StepOutcome.succeeded = true
outcome_fits _ _ = false

abbrev pub is_active : AttemptStatus → Bool
is_active AttemptStatus.active = true
is_active _ = false

abbrev pub is_completed : AttemptStatus → Bool
is_completed AttemptStatus.completed = true
is_completed _ = false

abbrev pub is_changes_requested : AttemptStatus → Bool
is_changes_requested AttemptStatus.changes_requested = true
is_changes_requested _ = false

-- A set of threads is compared only where none is `None`.
unfoldable pub validate_attempt_record : IssueAttemptRecord → Result AttemptError Unit
unfolding outcome_fits
validate_attempt_record r = do
  raise_if (lt_one r.attempt_number) not_positive
  raise_if (is_active r.status) cannot_archive_active
  guard (outcome_fits r.status r.outcome) incompatible_outcome
  raise_if
      (is_completed r.status
        && (is_missing r.implementation || is_missing r.review || is_missing r.qa_result))
      missing_results
  raise_if
      (is_completed r.status
        && (any is_missing (phase_threads r) || not (all_unique (present (phase_threads r)))))
      shared_threads
  raise_if (is_changes_requested r.status && is_missing r.rework_request) missing_rework

abbrev pub identity : IssueAttemptRecord → String × ℤ
identity r = (r.issue_id, r.attempt_number)

-- The inner loop of `validate_attempt_history`; `None` is skipped.
unfoldable pub claim_threads :
    List String → List (Option String) → Result AttemptError (List String)
claim_threads seen [] = ok seen
claim_threads seen (none ∷ rest) = claim_threads seen rest
claim_threads seen (some thread ∷ rest) =
    raise_if (contains seen thread) reused_thread >>= λ _. claim_threads (add seen thread) rest

unfoldable pub history_from :
    List (String × ℤ) → List String → List IssueAttemptRecord → Result AttemptError Unit
unfolding claim_threads
history_from identities threads [] = ok tt
history_from identities threads (r ∷ rest) = validate_attempt_record r >>= λ _.
    raise_if (contains identities (identity r)) repeated_identity >>= λ _.
    claim_threads threads (phase_threads r) >>= λ claimed.
    history_from (add identities (identity r)) claimed rest

unfoldable pub validate_attempt_history : List IssueAttemptRecord → Result AttemptError Unit
unfolding history_from
validate_attempt_history attempts = history_from [] [] attempts

-- The threads in the order of the comprehension; the source makes a frozenset of them.
unfoldable pub archived_execution_threads : List IssueAttemptRecord → List String
archived_execution_threads [] = []
archived_execution_threads (r ∷ rest) = present (phase_threads r) ++ archived_execution_threads rest

pub record CompletedResultSets : Type 0 where
  pub implementations : List ArtifactRef
  pub reviews : List ArtifactRef
  pub qa_results : List ArtifactRef

abbrev pub completed_attempts : List IssueAttemptRecord → List IssueAttemptRecord
completed_attempts = keep (λ r. is_completed r.status)

unfoldable pub completed_result_sets :
    List IssueAttemptRecord → Result AttemptError CompletedResultSets
completed_result_sets attempts = do
  let completed = completed_attempts attempts
  for_each validate_attempt_record completed
  ok (record {
    implementations = present (map (λ (r : IssueAttemptRecord). r.implementation) completed);
    reviews = present (map (λ (r : IssueAttemptRecord). r.review) completed);
    qa_results = present (map (λ (r : IssueAttemptRecord). r.qa_result) completed);
  })
