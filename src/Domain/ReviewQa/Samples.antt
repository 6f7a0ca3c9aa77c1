-- ===== src/Domain/ReviewQa/Samples.antt =====
-- A review and a QA result, and the theorems about src/devloop/domain/review_qa.py at them.
use devloop.Prelude.Int.{pos}
use devloop.Domain.Outcomes.{StepOutcome}
use devloop.Prelude.{text_same, refl, false, ok, ◌==◌, [], some, nat_beq, ◌∷◌, ◌≡◌}
use Prim.Native.Char.{code}
use devloop.Domain.ReviewQa.{
  TextLibrary, ReviewResult, ReviewFinding, QaResult, QaCheck, validate_review_result,
  review_outcome, validate_qa_result, qa_outcome, check_finding, check_qa, required_text,
  relative_path, lacks_execution, FindingSeverity, FindingDisposition, QaCheckKind,
  CheckRequirement, QaCheckStatus, review_schema, qa_schema,
}
use devloop.Domain.ReviewQa.Outcome.{
  IsReviewOutcome, IsQaOutcome, review_outcome_lem, qa_outcome_lem,
}
use devloop.Domain.ReviewQa.Coverage.{Vouches, qa_succeeds-Vouches}

-- White space is the blank alone, and a path is not split.
abbrev library : TextLibrary
library = record {
  is_space = λ c. nat_beq (code c) 32;
  is_absolute = λ path. path == "/";
  parts = λ path. path ∷ [];
}

abbrev finding : ReviewFinding
finding = record {
  finding_id = "RF-001";
  severity = FindingSeverity.high;
  disposition = FindingDisposition.must_fix;
  title = "t";
  rationale = "r";
  evidence = "e";
  file_path = "a.py";
  line = some (pos 3);
  expected_behavior = "x";
  acceptance_condition = "c";
}

abbrev review : ReviewResult
review = record {
  schema = review_schema;
  attempt_id = "attempt-001";
  implementation_diff_hash = "d";
  findings = finding ∷ [];
  summary = "s";
  blocked_reason = some "no access";
}

validating : Unit {0}
unfolding review_outcome validate_review_result check_finding relative_path validate_qa_result
    check_qa required_text lacks_execution qa_outcome
validating = tt

review_run : review_outcome library review ≡ ok StepOutcome.changes_requested
unfolding validating
review_run = refl

review_outcome_example :
    (validate_review_result library review ≡ ok tt)
    × IsReviewOutcome review StepOutcome.changes_requested
review_outcome_example = review_outcome_lem library review review_run

abbrev check : QaCheck
check = record {
  check_id = "QC-001";
  criterion_id = "AC-1";
  kind = QaCheckKind.test;
  requirement = CheckRequirement.required;
  status = QaCheckStatus.passed;
  command = some "pytest";
  exit_code = some (pos 0);
  duration_ms = pos 10;
  evidence = "e";
  reason = "";
  expected_behavior = "x";
  acceptance_condition = "c";
}

abbrev verified : QaResult
verified = record {
  schema = qa_schema;
  attempt_id = "attempt-001";
  implementation_diff_hash = "d";
  checks = check ∷ [];
  residual_risks = [];
  summary = "s";
  source_state_changed = false;
  state_change_evidence = "";
}

qa_valid : validate_qa_result library verified ("AC-1" ∷ []) ≡ ok tt
unfolding validating
qa_valid = refl

qa_success : qa_outcome verified ≡ StepOutcome.succeeded
unfolding qa_outcome
qa_success = refl

qa_outcome_example : IsQaOutcome verified
qa_outcome_example = qa_outcome_lem verified

qa_succeeds_example : Vouches library verified "AC-1"
qa_succeeds_example =
    qa_succeeds-Vouches library verified ("AC-1" ∷ []) qa_valid qa_success "AC-1" refl
