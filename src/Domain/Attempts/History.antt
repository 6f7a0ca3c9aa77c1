-- ===== src/Domain/Attempts/History.antt =====
-- What an accepted attempt history is, and what its completed results are
-- (src/devloop/domain/scheduler.py).
use devloop.Domain.Outcomes.{StepOutcome}
use devloop.Prelude.Int.{int_same, ℤ}
use devloop.Prelude.{
  mem-keep, is_missing, pair_same, subst, raise_if-eq-ok, Option-cases, raise_if, for_each_ok,
  >>=-eq-ok, mem_of_mem-keep, raise_if-false, map, Memᴰ, ok->>=, ap, ◌||◌, ◌==◌, ==-refl, none, ◌∙◌,
  refl, sym, text_same, inr, false≢true, inl, Bool-cases, contains-add, arith, some, false, true,
  ok, ◌≡◌, [], Distinct, contains, add, Option, ◌∷◌, String, ◌↔◌, ◌++◌, Comparable, List,
}
use devloop.Domain.Attempts.{
  AttemptStatus, reused_thread, repeated_identity, is_completed, IssueAttemptRecord,
  validate_attempt_record, validate_attempt_history, history_from, claim_threads, phase_threads,
  present, identity, archived_execution_threads, completed_result_sets, completed_attempts,
  CompletedResultSets,
}
use mathlib.Core.List.Memᴰ

-- The elements are distinct, and none was seen before.
abbrev Fresh {ℓ} : {A : Type ℓ} ⦃e : Comparable A⦄ → List A → List A → Type 0
Fresh seen [] = Unit
Fresh seen (x ∷ xs) = (contains seen x ≡ false) × Fresh (add seen x) xs

-- The set after all elements were added.
abbrev after {ℓ} : {A : Type ℓ} ⦃e : Comparable A⦄ → List A → List A → List A
after seen [] = seen
after seen (x ∷ xs) = after (add seen x) xs

module _ {ℓ} {A : Type ℓ} ⦃e : Comparable A⦄ where
  Fresh-append :
      (seen xs ys : List A) → Fresh seen (xs ++ ys) ↔ (Fresh seen xs × Fresh (after seen xs) ys)
  Fresh-append seen [] ys = (λ h. (tt, h), λ h. h.1)
  Fresh-append seen (x ∷ xs) ys =
      let ih = Fresh-append (add seen x) xs ys in
      (λ (new, h). let (a, b) = ih.0 h in ((new, a), b), λ ((new, a), b). (new, ih.1 (a, b)))

  -- Fresh elements are distinct and were not seen, and the other way round.
  Fresh-iff :
      (seen xs : List A)
      → Fresh seen xs ↔ (Distinct xs × ((a : A) → contains xs a ≡ true → contains seen a ≡ false))
  Fresh-iff seen [] = (λ h. (tt, λ a m. cc), λ h. tt)
  Fresh-iff seen (x ∷ xs) =
      let ih = Fresh-iff (add seen x) xs in
      (
        λ (new, h).
            let (d, unseen) = ih.0 h in
            (
              (not_later new unseen, d),
              λ a m. elim (Bool-cases (a == x)) [
                | inl same ↦ rw ((e.same_iff a x).0 same) new
                | inr other ↦ not_seen a (unseen a (ground arith))
              ],
            ),
        λ ((fresh, d), unseen).
            let first : contains seen x ≡ false = unseen x (rw (==-refl x) refl) in
            (
              first,
              ih.1 (
                d,
                λ a m.
                    rw (contains-add seen x a) (rw (unseen a (ground arith)) (differs a fresh m)),
              ),
            ),
      )
    where
      not_seen : (a : A) → contains (add seen x) a ≡ false → contains seen a ≡ false
      not_seen a h = ground (arith, contains-add seen x a)

      not_later :
          contains seen x ≡ false
          → ((a : A) → contains xs a ≡ true → contains (add seen x) a ≡ false)
          → contains xs x ≡ false
      not_later new unseen = elim (Bool-cases (contains xs x)) [
        | inl later ↦
            absurd (false≢true (sym (unseen x later) ∙ contains-add seen x x ∙ rw (==-refl x) refl))
        | inr absent ↦ absent
      ]

      differs : (a : A) → contains xs x ≡ false → contains xs a ≡ true → (a == x || false) ≡ false
      differs a new m = elim (Bool-cases (a == x)) [
        | inl same ↦
            absurd (false≢true (sym new ∙ ap (contains xs) (sym ((e.same_iff a x).0 same)) ∙ m))
        | inr other ↦ rw other refl
      ]

claim_threads_lem :
    (seen : List String) (threads : List (Option String))
    → (Fresh seen (present threads)
        → claim_threads seen threads ≡ ok (after seen (present threads)))
      × ((claimed : List String)
          → claim_threads seen threads ≡ ok claimed
          → Fresh seen (present threads) × (claimed ≡ after seen (present threads)))
unfolding claim_threads
claim_threads_lem seen [] = (λ h. refl, λ claimed h. (tt, cc))
claim_threads_lem seen (none ∷ rest) = claim_threads_lem seen rest
claim_threads_lem seen (some thread ∷ rest) =
    let ih = claim_threads_lem (add seen thread) rest in
    (
      λ (new, h).
          ok->>= _ (λ _. claim_threads (add seen thread) rest) (raise_if-false _ _ new) ∙ ih.0 h,
      λ claimed h.
          let (_, passed, later) =
            >>=-eq-ok (raise_if (contains seen thread) reused_thread)
              (λ _. claim_threads (add seen thread) rest) h in
          let (f, same) = ih.1 claimed later in ((raise_if-eq-ok _ _ passed, f), same),
    )

abbrev pub AllValid : List IssueAttemptRecord → Type 0
AllValid attempts = (r : IssueAttemptRecord) → Memᴰ r attempts → validate_attempt_record r ≡ ok tt

module _ (identities : List (String × ℤ)) (threads : List String) (r : IssueAttemptRecord)
    (rest : List IssueAttemptRecord) where
  abbrev claimed : List String
  claimed = after threads (present (phase_threads r))

  -- One round of the loop, in both directions.
  history_from-cons : (history_from identities threads (r ∷ rest) ≡ ok tt) ↔ (
      (validate_attempt_record r ≡ ok tt)
      × (contains identities (identity r) ≡ false)
      × Fresh threads (present (phase_threads r))
      × (history_from (add identities (identity r)) claimed rest ≡ ok tt))
  unfolding history_from
  history_from-cons = (
    λ h.
        let (_, valid, h1) = >>=-eq-ok (validate_attempt_record r) _ h in
        let (_, new, h2) =
          >>=-eq-ok (raise_if (contains identities (identity r)) repeated_identity) _ h1 in
        let (taken, passed, h3) = >>=-eq-ok (claim_threads threads (phase_threads r)) _ h2 in
        let (f, same) = (claim_threads_lem threads (phase_threads r)).1 taken passed in
        (
          valid,
          raise_if-eq-ok _ _ new,
          f,
          subst (λ t. history_from (add identities (identity r)) t rest ≡ ok tt) same h3,
        ),
    λ (valid, new, f, h).
        ok->>= _ _ valid
        ∙ ok->>= _ _ (raise_if-false _ _ new)
        ∙ ok->>= _ _ ((claim_threads_lem threads (phase_threads r)).0 f)
        ∙ h,
  )

history_from_iff :
    (identities : List (String × ℤ)) (threads : List String) (attempts : List IssueAttemptRecord)
    → (history_from identities threads attempts ≡ ok tt) ↔ (
        AllValid attempts
        × Fresh identities (map identity attempts)
        × Fresh threads (archived_execution_threads attempts))
unfolding archived_execution_threads
history_from_iff identities threads [] =
    (λ h. (λ r m. elim m [ ], tt, tt), λ h. unfold history_from in refl)
history_from_iff identities threads (r ∷ rest) =
    let one = history_from-cons identities threads r rest in
    let ih =
      history_from_iff (add identities (identity r)) (claimed identities threads r rest) rest in
    let split =
      Fresh-append threads (present (phase_threads r)) (archived_execution_threads rest) in
    (
      λ h.
          let (valid, new, f, later) = one.0 h in
          let (all_valid, ids, ths) = ih.0 later in
          (
            λ x m. elim (Memᴰ.cases_cons m) [ inl e ↦ rw e valid | inr n ↦ all_valid x n ],
            (new, ids),
            split.1 (f, ths),
          ),
      λ (all_valid, (new, ids), ths).
          let (f, later) = split.0 ths in
          one.1 (
            all_valid r (Memᴰ.head refl),
            new,
            f,
            ih.1 (λ x m. all_valid x (Memᴰ.tail m), ids, later),
          ),
    )

-- An attempt history is accepted exactly when each record is valid, no issue has two attempts of
-- one number, and no execution thread serves twice, within an attempt or across attempts.
pub validate_history_iff :
    (attempts : List IssueAttemptRecord)
    → (validate_attempt_history attempts ≡ ok tt) ↔ (
        AllValid attempts
        × Distinct (map identity attempts)
        × Distinct (archived_execution_threads attempts))
unfolding validate_attempt_history
validate_history_iff attempts =
    let h = history_from_iff [] [] attempts in
    let ids = Fresh-iff [] (map identity attempts) in
    let ths = Fresh-iff [] (archived_execution_threads attempts) in
    (
      λ e. let (valid, i, t) = h.0 e in (valid, (ids.0 i).0, (ths.0 t).0),
      λ (valid, i, t). h.1 (valid, ids.1 (i, λ a m. refl), ths.1 (t, λ a m. refl)),
    )

-- The parts of a completed attempt that its validation asks for.
completed_parts :
    (r : IssueAttemptRecord)
    → is_completed r.status ≡ true
    → validate_attempt_record r ≡ ok tt
    → (is_missing r.implementation ≡ false)
      × (is_missing r.review ≡ false)
      × (is_missing r.qa_result ≡ false)
      × (r.outcome ≡ StepOutcome.succeeded)
unfolding validate_attempt_record
completed_parts r c h = (ground arith, ground arith, ground arith, ground arith)

map-some-present {ℓ κ} :
    {A : Type ℓ} {B : Type κ} (f : A → Option B) (xs : List A)
    → ((x : A) → Memᴰ x xs → is_missing (f x) ≡ false)
    → map some (present (map f xs)) ≡ map f xs
map-some-present f [] h = refl
map-some-present f (x ∷ xs) h = elim (Option-cases (f x)) [
  | inl missing ↦ absurd (false≢true (sym (h x (Memᴰ.head refl)) ∙ ap is_missing missing))
  | inr (b, e) ↦
      rw e (ap (λ rest. some b ∷ rest) (map-some-present f xs (λ y m. h y (Memᴰ.tail m))))
]

completed_status :
    (status : AttemptStatus) → is_completed status ≡ true → status ≡ AttemptStatus.completed
completed_status AttemptStatus.completed h = refl
completed_status AttemptStatus.active h = cc
completed_status AttemptStatus.changes_requested h = cc
completed_status AttemptStatus.blocked h = cc
completed_status AttemptStatus.failed h = cc

mem-completed :
    (attempts : List IssueAttemptRecord) (r : IssueAttemptRecord)
    → Memᴰ r (completed_attempts attempts)
      ↔ (Memᴰ r attempts × (r.status ≡ AttemptStatus.completed))
mem-completed attempts r =
    let test = λ (x : IssueAttemptRecord). is_completed x.status in
    (
      λ m.
          let (listed, c) = mem_of_mem-keep test attempts m in
          (listed, completed_status r.status c),
      λ (listed, c). mem-keep test attempts listed (ap is_completed c),
    )

-- From an accepted history the completed results are collected: the attempts that they come from
-- are those of the history with the status COMPLETED, and the implementations, the reviews and the
-- QA results are those of these attempts, one each, in their order.
pub completed_results_lem :
    (attempts : List IssueAttemptRecord)
    → validate_attempt_history attempts ≡ ok tt
    → (sets : CompletedResultSets) × (completed_result_sets attempts ≡ ok sets)
      × (map some sets.implementations
          ≡ map (λ (r : IssueAttemptRecord). r.implementation) (completed_attempts attempts))
      × (map some sets.reviews
          ≡ map (λ (r : IssueAttemptRecord). r.review) (completed_attempts attempts))
      × (map some sets.qa_results
          ≡ map (λ (r : IssueAttemptRecord). r.qa_result) (completed_attempts attempts))
      × ((r : IssueAttemptRecord)
          → Memᴰ r (completed_attempts attempts)
            ↔ (Memᴰ r attempts × (r.status ≡ AttemptStatus.completed)))
unfolding completed_result_sets
completed_results_lem attempts h =
    let (valid, _, _) = (validate_history_iff attempts).0 h in
    let done = completed_attempts attempts in
    let part = λ (r : IssueAttemptRecord) (m : Memᴰ r done).
      let (listed, c) =
        mem_of_mem-keep (λ (x : IssueAttemptRecord). is_completed x.status) attempts m in
      completed_parts r c (valid r listed) in
    (
      record {
        implementations = present (map (λ (r : IssueAttemptRecord). r.implementation) done);
        reviews = present (map (λ (r : IssueAttemptRecord). r.review) done);
        qa_results = present (map (λ (r : IssueAttemptRecord). r.qa_result) done);
      },
      ok->>= _ _ (
          for_each_ok validate_attempt_record done (λ r m.
            valid r
              (mem_of_mem-keep (λ (x : IssueAttemptRecord). is_completed x.status) attempts m).0)),
      map-some-present (λ (r : IssueAttemptRecord). r.implementation) done (λ r m. (part r m).0),
      map-some-present (λ (r : IssueAttemptRecord). r.review) done (λ r m. (part r m).1),
      map-some-present (λ (r : IssueAttemptRecord). r.qa_result) done (λ r m. (part r m).2),
      mem-completed attempts,
    )
