-- ===== src/Domain/ReviewQa/Coverage.antt =====
-- What a successful QA result guarantees for each acceptance criterion
-- (src/devloop/domain/review_qa.py).
use devloop.Domain.Development.Rework.{same_set_iff}
use devloop.Prelude.Int.{beq_ℤ_iff, ℤ, ltb_ℤ, pos}
use devloop.Domain.Outcomes.{StepOutcome}
use devloop.Domain.Development.{same_set}
use devloop.Prelude.{
  ap, inr, arith, inl, Option-cases, guard-eq-ok, for_each-eq-ok, for_each, raise_if-eq-ok, map,
  all_unique, text_same, mem_of_mem-keep, ◌∙◌, contains_elim, raise_if, keep, ◌==◌, mem_of_mem-map,
  guard, >>=-eq-ok, contains, ◌&&◌, false, some, ok, true, Memᴰ, ◌≡◌, List, String,
}
use devloop.Domain.ReviewQa.{
  uncovered_criterion, repeated_id, incomplete_execution, required_text, nonzero_exit,
  negative_duration, missing_diff_hash, unsupported_schema, qa_schema, unknown_criterion,
  TextLibrary, QaResult, QaCheck, is_required, is_passed, is_executable, is_nonzero,
  required_coverage, check_qa, validate_qa_result, qa_outcome, lacks_execution, is_blank,
}
use devloop.Domain.ReviewQa.Outcome.{qa_outcome_lem}

-- The command of a passed executable check is there and not blank, and it exited with 0.
abbrev pub HasRun : TextLibrary → QaCheck → Type 0
HasRun library check =
    (command : String) × (check.command ≡ some command)
    × (is_blank library.is_space command ≡ false)
    × (check.exit_code ≡ some (pos 0))

-- A check that vouches for a criterion.
pub record Vouches (library : TextLibrary) (result : QaResult) (criterion : String) : Type 0 where
  pub check : QaCheck
  pub listed : Memᴰ check result.checks
  pub mapped : check.criterion_id ≡ criterion
  pub needed : is_required check ≡ true
  pub passed : is_passed check.status ≡ true
  pub ran : is_executable check.kind ≡ true → HasRun library check

zero_exit_code : (code : ℤ) → is_nonzero (some code) ≡ false → code ≡ pos 0
zero_exit_code code h = (beq_ℤ_iff code (pos 0)).0 (ground arith)

executed :
    (library : TextLibrary) (c : QaCheck)
    → is_passed c.status ≡ true
    → is_executable c.kind ≡ true
    → (is_passed c.status && is_nonzero c.exit_code) ≡ false
    → lacks_execution library c ≡ false
    → HasRun library c
unfolding lacks_execution
executed library c p x z l = elim (Option-cases c.command) [
  | inl missing ↦ absurd (ground arith)
  | inr (command, given) ↦ elim (Option-cases c.exit_code) [
    | inl missing ↦ absurd (ground arith)
    | inr (code, exited) ↦
        let clean : is_nonzero (some code) ≡ false = rw (p, exited) at z in
        (command, given, ground arith, exited ∙ ap some (zero_exit_code code clean))
  ]
]

module _ (library : TextLibrary) (result : QaResult) (criterion_ids : List String)
    (valid : validate_qa_result library result criterion_ids ≡ ok tt) where
  -- What the loop and the coverage test of the validation establish.
  valid_parts :
      ((check : QaCheck) → Memᴰ check result.checks → check_qa library criterion_ids check ≡ ok tt)
      × (same_set (required_coverage result.checks) criterion_ids ≡ true)
  unfolding validate_qa_result
  valid_parts =
      let (_, _, h1) = >>=-eq-ok (guard (result.schema == qa_schema) unsupported_schema) _ valid in
      let (_, _, h2) =
        >>=-eq-ok (raise_if (result.implementation_diff_hash == "") missing_diff_hash) _ h1 in
      let (_, _, h3) = >>=-eq-ok (required_text library result.summary "QA Result summary") _ h2 in
      let (_, _, h4) =
        >>=-eq-ok
          (guard (all_unique (map (λ (item : QaCheck). item.check_id) result.checks)) repeated_id) _
          h3 in
      let (_, each, h5) =
        >>=-eq-ok (for_each (check_qa library criterion_ids) result.checks) _ h4 in
      let (_, covered, _) =
        >>=-eq-ok
          (guard (same_set (required_coverage result.checks) criterion_ids) uncovered_criterion) _
          h5 in
      (
        λ check m. for_each-eq-ok (check_qa library criterion_ids) result.checks each m,
        guard-eq-ok _ _ covered,
      )

  -- A passed check of an executable kind was run.
  passed-HasRun :
      (check : QaCheck)
      → check_qa library criterion_ids check ≡ ok tt
      → is_passed check.status ≡ true
      → is_executable check.kind ≡ true
      → HasRun library check
  unfolding check_qa
  passed-HasRun check h p x =
      let (_, _, h1) =
        >>=-eq-ok (guard (contains criterion_ids check.criterion_id) unknown_criterion) _ h in
      let (_, _, h2) =
        >>=-eq-ok (raise_if (ltb_ℤ check.duration_ms (pos 0)) negative_duration) _ h1 in
      let (_, zero_exit, h3) =
        >>=-eq-ok (raise_if (is_passed check.status && is_nonzero check.exit_code) nonzero_exit) _
          h2 in
      let (_, complete, _) =
        >>=-eq-ok (raise_if (lacks_execution library check) incomplete_execution) _ h3 in
      executed library check p x (raise_if-eq-ok _ _ zero_exit) (raise_if-eq-ok _ _ complete)

-- If a QA result is valid for the acceptance criteria and its outcome is SUCCEEDED, every criterion
-- has a required check that passed; if that check is of an executable kind, it has a command that is
-- not blank and the exit code 0.
pub qa_succeeds-Vouches :
    (library : TextLibrary) (result : QaResult) (criterion_ids : List String)
    → validate_qa_result library result criterion_ids ≡ ok tt
    → qa_outcome result ≡ StepOutcome.succeeded
    → (criterion : String) → contains criterion_ids criterion ≡ true
    → Vouches library result criterion
qa_succeeds-Vouches library result criterion_ids valid success criterion wanted =
    let (each, covered) = valid_parts library result criterion_ids valid in
    let same = (same_set_iff (required_coverage result.checks) criterion_ids).0 covered criterion in
    let (check, m, mapped) =
      mem_of_mem-map (λ (item : QaCheck). item.criterion_id) (keep is_required result.checks)
        (contains_elim (required_coverage result.checks) criterion (same ∙ wanted)) in
    let (listed, needs) = mem_of_mem-keep is_required result.checks m in
    let passes = ((qa_outcome_lem result).succeeds.0 success).1 check listed needs in
    record {
      check = check;
      listed = listed;
      mapped = mapped;
      needed = needs;
      passed = passes;
      ran = passed-HasRun library result criterion_ids valid check (each check listed) passes;
    }
