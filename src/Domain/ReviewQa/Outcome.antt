-- ===== src/Domain/ReviewQa/Outcome.antt =====
-- How findings and checks decide the outcomes (src/devloop/domain/review_qa.py).
use devloop.Prelude.{
  any_none, any-false, none, mem-keep, >>=-eq-ok, is_some, refl, any_intro, mem_of_mem-keep, any,
  ◌≢◌, ok->>=, arith, Memᴰ, err, if◌then◌else◌, ok, true, ◌↔◌, any_elim, false, keep, ◌≡◌, Bool,
}
use devloop.Domain.ReviewQa.{
  TextLibrary, ReviewResult, ReviewFinding, ReviewQaError, QaResult, QaCheck, is_must_fix,
  is_required, is_passed, is_failed, is_blocking, validate_review_result, review_outcome,
  qa_outcome,
}
use devloop.Domain.Outcomes.{StepOutcome}

-- What an outcome of a review says.
pub record IsReviewOutcome (result : ReviewResult) (outcome : StepOutcome) : Type 0 where
  pub asks_changes :
      (outcome ≡ StepOutcome.changes_requested)
      ↔ ((finding : ReviewFinding) × Memᴰ finding result.findings × (is_must_fix finding ≡ true))
  pub is_blocked :
      (outcome ≡ StepOutcome.blocked)
      ↔ ((any is_must_fix result.findings ≡ false) × (is_some result.blocked_reason ≡ true))
  pub succeeds :
      (outcome ≡ StepOutcome.succeeded)
      ↔ ((any is_must_fix result.findings ≡ false) × (result.blocked_reason ≡ none))

module _ (library : TextLibrary) (result : ReviewResult) where
  outcome_of_ok :
      {outcome : StepOutcome}
      → review_outcome library result ≡ ok outcome
      → (validate_review_result library result ≡ ok tt)
        × (outcome ≡ (
            if any is_must_fix result.findings
            then StepOutcome.changes_requested
            else if is_some result.blocked_reason
            then StepOutcome.blocked
            else StepOutcome.succeeded))
  unfolding review_outcome
  outcome_of_ok h =
      let (_, valid, e) = >>=-eq-ok (validate_review_result library result) _ h in (valid, cc)

-- A review has an outcome only if its result is valid. Then a finding that must be fixed asks for
-- changes, whether or not the review is blocked; without one it is blocked if a reason is given,
-- and it succeeds only with neither.
pub review_outcome_lem :
    (library : TextLibrary) (result : ReviewResult) {outcome : StepOutcome}
    → review_outcome library result ≡ ok outcome
    → (validate_review_result library result ≡ ok tt) × IsReviewOutcome result outcome
review_outcome_lem library result {outcome} h =
    let (valid, e) = outcome_of_ok library result h in
    (
      valid,
      record {
        asks_changes = (
          λ c. any_elim is_must_fix result.findings (ground arith),
          λ (finding, m, must).
              let some_must = any_intro is_must_fix result.findings m must in ground arith,
        );
        is_blocked = (λ c. (ground arith, ground arith), λ c. ground arith);
        succeeds = (λ c. (ground arith, ground arith), λ c. ground arith);
      },
    )

-- A review whose result is invalid fails with the error of the validation, and a valid one has an
-- outcome.
pub review_outcome_total :
    (library : TextLibrary) (result : ReviewResult)
    → ((error : ReviewQaError)
        → validate_review_result library result ≡ err error
        → review_outcome library result ≡ err error)
      × (validate_review_result library result ≡ ok tt
          → (outcome : StepOutcome) × (review_outcome library result ≡ ok outcome))
unfolding review_outcome
review_outcome_total library result = (λ error h. rw h refl, λ h. (_, ok->>= _ _ h))

abbrev HasRequired : (QaCheck → Bool) → QaResult → Type 0
HasRequired test result =
    (check : QaCheck) × Memᴰ check result.checks × (is_required check ≡ true) × (test check ≡ true)

-- What the outcome of a QA step says.
pub record IsQaOutcome (result : QaResult) : Type 0 where
  pub asks_changes : (qa_outcome result ≡ StepOutcome.changes_requested) ↔ (
      (result.source_state_changed ≡ false) × HasRequired (λ check. is_failed check.status) result)
  pub succeeds : (qa_outcome result ≡ StepOutcome.succeeded) ↔ (
      (result.source_state_changed ≡ false)
      × ((check : QaCheck)
          → Memᴰ check result.checks
          → is_required check ≡ true
          → is_passed check.status ≡ true))
  pub otherwise :
      (qa_outcome result ≢ StepOutcome.changes_requested)
      → (qa_outcome result ≢ StepOutcome.succeeded)
      → qa_outcome result ≡ StepOutcome.blocked

abbrev fails : QaCheck → Bool
fails item = is_failed item.status

abbrev blocks : QaCheck → Bool
blocks item = is_blocking item.status

passed_of_neither :
    (check : QaCheck) → fails check ≡ false → blocks check ≡ false → is_passed check.status ≡ true
passed_of_neither check h k = ground arith

neither_of_passed :
    (check : QaCheck)
    → is_passed check.status ≡ true
    → (fails check ≡ false) × (blocks check ≡ false)
neither_of_passed check h = (ground arith, ground arith)

qa_outcome_cases :
    (result : QaResult)
    → qa_outcome result ≡ (
        if result.source_state_changed
        then StepOutcome.blocked
        else if any fails (keep is_required result.checks)
        then StepOutcome.changes_requested
        else if any blocks (keep is_required result.checks)
        then StepOutcome.blocked
        else StepOutcome.succeeded)
unfolding qa_outcome
qa_outcome_cases result = refl

-- A changed source state blocks. Otherwise a failed required check asks for changes, the step
-- succeeds exactly if every required check passed, and in all other cases it is blocked; optional
-- checks count for nothing.
pub qa_outcome_lem : (result : QaResult) → IsQaOutcome result
qa_outcome_lem result =
    let e = qa_outcome_cases result in
    let needed = keep is_required result.checks in
    record {
      asks_changes = (
        λ h.
            let (check, m, failing) = any_elim fails needed (ground arith) in
            let (listed, needs) = mem_of_mem-keep is_required result.checks m in
            (ground arith, (check, listed, needs, failing)),
        λ (unchanged, (check, listed, needs, failing)).
            let found =
              any_intro fails needed (mem-keep is_required result.checks listed needs) failing in
            ground arith,
      );
      succeeds = (
        λ h. (
          ground arith,
          λ check listed needs.
              let m = mem-keep is_required result.checks listed needs in
              passed_of_neither check (any-false fails needed (ground arith) m)
                (any-false blocks needed (ground arith) m),
        ),
        λ (unchanged, all_passed).
            let passes = λ (check : QaCheck) (m : Memᴰ check needed).
              let (listed, needs) = mem_of_mem-keep is_required result.checks m in
              neither_of_passed check (all_passed check listed needs) in
            let no_failure = any_none fails needed (λ check m. (passes check m).0) in
            let no_block = any_none blocks needed (λ check m. (passes check m).1) in ground arith,
      );
      otherwise = λ h k. ground arith;
    }
