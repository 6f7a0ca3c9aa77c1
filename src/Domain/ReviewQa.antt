-- ===== src/Domain/ReviewQa.antt =====
-- Review and QA results of src/devloop/domain/review_qa.py. `value.strip()` is tested for being
-- empty: its characters are the white space of Python's `str.isspace`, which is a parameter. So are
-- `is_absolute` and `parts` of Python's `PurePosixPath(value.replace("\\", "/"))`.
pub mod Outcome
pub mod Coverage
mod Samples
use devloop.Domain.Development.{same_set}
use devloop.Prelude.{
  is_nil, for_each, all_unique, text_same, contains, is_some, guard, ◌>>◌, ◌==◌, is_missing, not,
  none, some, any, ◌&&◌, map, if◌then◌else◌, ◌||◌, raise_if, true, false, ok, Option, keep, Result,
  List, Bool, String,
}
use Prim.Native.Char.{Char}
use Prim.Native.String
use devloop.Prelude.Int.{ℤ, pos, negsuc, beq_ℤ, ltb_ℤ, lt_one}
use devloop.Domain.Outcomes.{StepOutcome}

pub data FindingSeverity : Type 0 where
  critical high medium low : FindingSeverity

pub data FindingDisposition : Type 0 where
  must_fix advisory : FindingDisposition

pub data QaCheckKind : Type 0 where
  build test lint type_check security manual_inspection : QaCheckKind

pub data CheckRequirement : Type 0 where
  required optional : CheckRequirement

pub data QaCheckStatus : Type 0 where
  pending running passed failed blocked skipped unknown : QaCheckStatus

abbrev pub is_executable : QaCheckKind → Bool
is_executable manual_inspection = false
is_executable _ = true

pub record ReviewFinding : Type 0 where
  pub finding_id : String
  pub severity : FindingSeverity
  pub disposition : FindingDisposition
  pub title : String
  pub rationale : String
  pub evidence : String
  pub file_path : String
  pub line : Option ℤ
  pub expected_behavior : String
  pub acceptance_condition : String

pub record ReviewResult : Type 0 where
  pub schema : String
  pub attempt_id : String
  pub implementation_diff_hash : String
  pub findings : List ReviewFinding
  pub summary : String
  pub blocked_reason : Option String

pub record QaCheck : Type 0 where
  pub check_id : String
  pub criterion_id : String
  pub kind : QaCheckKind
  pub requirement : CheckRequirement
  pub status : QaCheckStatus
  pub command : Option String
  pub exit_code : Option ℤ
  pub duration_ms : ℤ
  pub evidence : String
  pub reason : String
  pub expected_behavior : String
  pub acceptance_condition : String

pub record QaResult : Type 0 where
  pub schema : String
  pub attempt_id : String
  pub implementation_diff_hash : String
  pub checks : List QaCheck
  pub residual_risks : List String
  pub summary : String
  pub source_state_changed : Bool
  pub state_change_evidence : String

-- The errors; the last two carry the name of the missing text.
pub data ReviewQaError : Type 0 where
  unsupported_schema missing_diff_hash repeated_id bad_line bad_path unknown_criterion
        negative_duration nonzero_exit incomplete_execution uncovered_criterion missing_risk :
      ReviewQaError
  missing_text : String → ReviewQaError

abbrev pub review_schema : String
review_schema = "devloop.review-result/v1"

abbrev pub qa_schema : String
qa_schema = "devloop.qa-result/v1"

-- What the code takes from Python's library.
pub record TextLibrary : Type 0 where
  pub is_space : Char → Bool
  pub is_absolute : String → Bool
  pub parts : String → List String

-- `not value.strip()`: each character is white space.
pub is_blank : (Char → Bool) → String → Bool
is_blank is_space String.[] = true
is_blank is_space (String.◌∷◌ c rest) = is_space c && is_blank is_space rest

abbrev pub is_must_fix : ReviewFinding → Bool
is_must_fix finding = elim finding.disposition [ must_fix ↦ true | advisory ↦ false ]

abbrev pub is_required : QaCheck → Bool
is_required check = elim check.requirement [ required ↦ true | optional ↦ false ]

abbrev pub is_passed : QaCheckStatus → Bool
is_passed passed = true
is_passed _ = false

abbrev pub is_failed : QaCheckStatus → Bool
is_failed failed = true
is_failed _ = false

-- The set `blocking` of `qa_outcome`.
abbrev pub is_blocking : QaCheckStatus → Bool
is_blocking passed = false
is_blocking failed = false
is_blocking _ = true

-- The set `optional_risks` of `validate_qa_result`.
abbrev pub is_risk : QaCheckStatus → Bool
is_risk failed = true
is_risk blocked = true
is_risk skipped = true
is_risk unknown = true
is_risk _ = false

-- `exit_code not in {None, 0}`
abbrev pub is_nonzero : Option ℤ → Bool
is_nonzero none = false
is_nonzero (some code) = not (beq_ℤ code (pos 0))

abbrev pub has_bad_line : Option ℤ → Bool
has_bad_line none = false
has_bad_line (some line) = lt_one line

-- The criteria of the required checks.
abbrev pub required_coverage : List QaCheck → List String
required_coverage checks = map (λ (item : QaCheck). item.criterion_id) (keep is_required checks)

module _ (library : TextLibrary) where
  open library use {is_space, is_absolute, parts}

  -- `_required(value, name)`
  unfoldable pub required_text : String → String → Result ReviewQaError Unit
  unfolding is_blank
  required_text value name = raise_if (is_blank is_space value) (missing_text name)

  -- `_relative_path(value)`
  unfoldable pub relative_path : String → Result ReviewQaError Unit
  relative_path value =
      raise_if (value == "" || is_absolute value || contains (parts value) "..") bad_path

  unfoldable pub check_finding : ReviewFinding → Result ReviewQaError Unit
  check_finding finding = do
    required_text finding.title "Review Finding title"
    required_text finding.rationale "Review Finding rationale"
    required_text finding.evidence "Review Finding evidence"
    relative_path finding.file_path
    raise_if (has_bad_line finding.line) bad_line
    required_text finding.expected_behavior "Review Finding expected behavior"
    required_text finding.acceptance_condition "Review Finding acceptance condition"

  abbrev check_reason : Option String → Result ReviewQaError Unit
  check_reason none = ok tt
  check_reason (some reason) = required_text reason "Review Result blocked reason"

  unfoldable pub validate_review_result : ReviewResult → Result ReviewQaError Unit
  validate_review_result result = do
    guard (result.schema == review_schema) unsupported_schema
    raise_if (result.implementation_diff_hash == "") missing_diff_hash
    required_text result.summary "Review Result summary"
    check_reason result.blocked_reason
    guard (all_unique (map (λ (item : ReviewFinding). item.finding_id) result.findings)) repeated_id
    for_each check_finding result.findings

  unfoldable pub review_outcome : ReviewResult → Result ReviewQaError StepOutcome
  review_outcome result = do
    validate_review_result result
    ok (
        if any is_must_fix result.findings
        then StepOutcome.changes_requested
        else if is_some result.blocked_reason
        then StepOutcome.blocked
        else StepOutcome.succeeded)

  -- The command or the exit code of a finished executable check is not there.
  unfoldable pub lacks_execution : QaCheck → Bool
  unfolding is_blank
  lacks_execution check =
      (is_passed check.status || is_failed check.status)
      && is_executable check.kind
      && (elim check.command [ none ↦ true | some command ↦ is_blank is_space command ]
          || is_missing check.exit_code)

  -- The body of the loop of `validate_qa_result`.
  unfoldable pub check_qa : List String → QaCheck → Result ReviewQaError Unit
  check_qa expected check = do
    guard (contains expected check.criterion_id) unknown_criterion
    raise_if (ltb_ℤ check.duration_ms (pos 0)) negative_duration
    raise_if (is_passed check.status && is_nonzero check.exit_code) nonzero_exit
    raise_if (lacks_execution check) incomplete_execution
    required_text check.evidence "QA Check evidence"
    required_text check.expected_behavior "QA Check expected behavior"
    required_text check.acceptance_condition "QA Check acceptance condition"
    if is_passed check.status then ok tt else required_text check.reason "QA Check reason"

  unfoldable pub validate_qa_result : QaResult → List String → Result ReviewQaError Unit
  validate_qa_result result criterion_ids = do
    guard (result.schema == qa_schema) unsupported_schema
    raise_if (result.implementation_diff_hash == "") missing_diff_hash
    required_text result.summary "QA Result summary"
    guard (all_unique (map (λ (item : QaCheck). item.check_id) result.checks)) repeated_id
    for_each (check_qa criterion_ids) result.checks
    guard (same_set (required_coverage result.checks) criterion_ids) uncovered_criterion
    raise_if
        (any (λ (item : QaCheck). not (is_required item) && is_risk item.status) result.checks
          && is_nil result.residual_risks)
        missing_risk
    if result.source_state_changed
        then required_text result.state_change_evidence "QA source-state change evidence"
        else ok tt

unfoldable pub qa_outcome : QaResult → StepOutcome
qa_outcome result =
    let required_checks = keep is_required result.checks in
    if result.source_state_changed
    then StepOutcome.blocked
    else if any (λ (item : QaCheck). is_failed item.status) required_checks
    then StepOutcome.changes_requested
    else if any (λ (item : QaCheck). is_blocking item.status) required_checks
    then StepOutcome.blocked
    else StepOutcome.succeeded
