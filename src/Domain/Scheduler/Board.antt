-- ===== src/Domain/Scheduler/Board.antt =====
-- The issue board of src/devloop/domain/scheduler.py agrees with the refreshed states.
use mathlib.Core.List.Memᴰ
use devloop.Domain.Scheduler.Refresh.{
  status-refresh, complete-refresh, all_cong, state-refresh, issue_ids, IsClosed,
}
use devloop.Prelude.Int.{ltb_ℤ, pos, ◌+ℤ◌, ◌≤ℤ◌, ℤ}
use devloop.Domain.Planning.{PlanningPackage, PlannedIssue}
use devloop.Domain.Development.{IssueStatus, IssueRuntimeState}
use devloop.Prelude.{
  ◌⊎◌, eq_of_same_key, mem-map, all_elim, inr, ◌∙◌, ap, contains_intro, inl, text_same, sym,
  false≢true, keep, Bool-cases, ◌==◌, nil_of_empty, Distinct, all_fails, true, ◌≢◌, all,
  if◌then◌else◌, mem-keep, not-eq_true, refl, mem_of_mem-keep, arith, not, ◌∷◌, [], false, ◌↔◌, ◌≡◌,
  Memᴰ, String, List,
}
use devloop.Domain.Scheduler.{
  state_by_id, status_or_pending, max_ℤ, refreshed_status, board_row, blockers_of, readiness_of,
  ready, is_complete, refresh_issue_states, in_progress, archived_attempt,
}
use devloop.Domain.Attempts.{IssueAttemptRecord}

readiness-ready :
    (states : List IssueRuntimeState) (blockers : List String)
    → (readiness_of states blockers ≡ ready) ↔ (blockers ≡ [])
unfolding readiness_of
readiness-ready states [] = (λ h. refl, λ h. refl)
readiness-ready states (b ∷ rest) = (λ h. ground arith, λ h. cc)

blockers-nil :
    (states : List IssueRuntimeState) (issue : PlannedIssue)
    → all (is_complete states) issue.dependencies ≡ true
    → blockers_of states issue ≡ []
unfolding blockers_of
blockers-nil states issue h =
    let test = λ (d : String). not (is_complete states d) in
    nil_of_empty (keep test issue.dependencies) (λ d m.
      let (listed, open_d) = mem_of_mem-keep test issue.dependencies m in
      false≢true
        (sym (not-eq_true _ open_d) ∙ all_elim (is_complete states) issue.dependencies h listed))

blockers-cons :
    (states : List IssueRuntimeState) (issue : PlannedIssue)
    → all (is_complete states) issue.dependencies ≡ false
    → blockers_of states issue ≢ []
unfolding blockers_of
blockers-cons states issue h nil =
    let test = λ (d : String). not (is_complete states d) in
    let (d, listed, open_d) = all_fails (is_complete states) issue.dependencies h in
    Memᴰ.not-nil (rw nil at (mem-keep test issue.dependencies listed (rw open_d refl)))

module _ (plan : PlanningPackage) (states : List IssueRuntimeState)
    (attempts : List IssueAttemptRecord) (closed : IsClosed plan)
    (unique : Distinct (issue_ids plan)) (issue : PlannedIssue)
    (listed : Memᴰ issue plan.issues) where
  abbrev refreshed : List IssueRuntimeState
  refreshed = refresh_issue_states plan states

  row-status : (board_row refreshed attempts issue).status ≡ refreshed_status states issue
  unfolding board_row
  row-status =
      let (other, at_other, same, found) = state-refresh plan states issue.issue_id (
        contains_intro (issue_ids plan)
          (mem-map (λ (i : PlannedIssue). i.issue_id) plan.issues listed)) in
      let one =
        eq_of_same_key (λ (i : PlannedIssue). i.issue_id) plan.issues unique at_other listed same in
      ap status_or_pending found ∙ status-refresh states other ∙ ap (refreshed_status states) one

  deps-refresh :
      all (is_complete refreshed) issue.dependencies ≡ all (is_complete states) issue.dependencies
  deps-refresh = all_cong (is_complete refreshed) (is_complete states) issue.dependencies (λ d at_d.
      complete-refresh plan states d
        (closed issue d listed (contains_intro issue.dependencies at_d)))

  row-readiness :
      ((board_row refreshed attempts issue).dependency_readiness ≡ ready)
      ↔ (all (is_complete states) issue.dependencies ≡ true)
  unfolding board_row
  row-readiness =
      let nil = readiness-ready refreshed (blockers_of refreshed issue) in
      (
        λ h. elim (Bool-cases (all (is_complete states) issue.dependencies)) [
          | inl done ↦ done
          | inr some_open ↦
              absurd (blockers-cons refreshed issue (deps-refresh ∙ some_open) (nil.0 h))
        ],
        λ h. nil.1 (blockers-nil refreshed issue (deps-refresh ∙ h)),
      )

refreshed-ready :
    (states : List IssueRuntimeState) (issue : PlannedIssue)
    → ((refreshed_status states issue ≡ IssueStatus.ready)
        → all (is_complete states) issue.dependencies ≡ true)
      × ((refreshed_status states issue ≡ IssueStatus.pending)
          → all (is_complete states) issue.dependencies ≡ false)
unfolding refreshed_status
refreshed-ready states issue = (λ h. ground arith, λ h. ground arith)

-- On the board of refreshed states, for a plan that is closed and repeats no number, an issue with
-- status READY has ready dependencies, and one with status PENDING does not.
pub board_refreshed :
    (plan : PlanningPackage) (states : List IssueRuntimeState) (attempts : List IssueAttemptRecord)
    → IsClosed plan
    → Distinct (issue_ids plan)
    → (issue : PlannedIssue) → Memᴰ issue plan.issues
    → ((board_row (refresh_issue_states plan states) attempts issue).status ≡ IssueStatus.ready
        → (board_row (refresh_issue_states plan states) attempts issue).dependency_readiness
          ≡ ready)
      × ((board_row (refresh_issue_states plan states) attempts issue).status ≡ IssueStatus.pending
          → (board_row (refresh_issue_states plan states) attempts issue).dependency_readiness
            ≢ ready)
board_refreshed plan states attempts closed unique issue listed =
    let status = row-status plan states attempts closed unique issue listed in
    let readiness = row-readiness plan states attempts closed unique issue listed in
    let (when_ready, when_pending) = refreshed-ready states issue in
    (
      λ h. readiness.1 (when_ready (sym status ∙ h)),
      λ h r. false≢true (sym (when_pending (sym status ∙ h)) ∙ readiness.0 r),
    )

archived-ge :
    (issue_id : String) (attempts : List IssueAttemptRecord) (highest : ℤ)
    → highest ≤ℤ archived_attempt issue_id highest attempts
unfolding archived_attempt
archived-ge issue_id [] highest = omega arith
archived-ge issue_id (a ∷ rest) highest = ground (
  arith,
  archived-ge issue_id rest
      (if a.issue_id == issue_id then max_ℤ highest a.attempt_number else highest),
)

archived-bound :
    (issue_id : String) (attempts : List IssueAttemptRecord) (highest : ℤ) {r : IssueAttemptRecord}
    → Memᴰ r attempts
    → r.issue_id ≡ issue_id
    → r.attempt_number ≤ℤ archived_attempt issue_id highest attempts
unfolding archived_attempt
archived-bound issue_id [] highest m e = elim m [ ]
archived-bound issue_id (a ∷ rest) highest {r} m e =
    let next = if a.issue_id == issue_id then max_ℤ highest a.attempt_number else highest in
    elim (Memᴰ.cases_cons m) [
      | inl same ↦
          let named : (a.issue_id == issue_id) ≡ true =
            (text_same.same_iff a.issue_id issue_id).1
              (ap (λ (x : IssueAttemptRecord). x.issue_id) (sym same) ∙ e) in
          let number = ap (λ (x : IssueAttemptRecord). x.attempt_number) same in
          let later = archived-ge issue_id rest next in rw number (ground arith)
      | inr n ↦ archived-bound issue_id rest next n e
    ]

-- The highest of the numbers of the issue's archived attempts, or 0 where all are lower.
pub record IsHighest (issue_id : String) (attempts : List IssueAttemptRecord) (highest : ℤ)
    : Type 0 where
  pub least : pos 0 ≤ℤ highest
  pub above :
      (r : IssueAttemptRecord)
      → Memᴰ r attempts
      → r.issue_id ≡ issue_id
      → r.attempt_number ≤ℤ highest
  pub taken :
      (highest ≡ pos 0)
      ⊎ ((r : IssueAttemptRecord) × Memᴰ r attempts
          × (r.issue_id ≡ issue_id)
          × (r.attempt_number ≡ highest))

archived-taken :
    (issue_id : String) (attempts : List IssueAttemptRecord) (highest : ℤ)
    → (archived_attempt issue_id highest attempts ≡ highest)
      ⊎ ((r : IssueAttemptRecord) × Memᴰ r attempts
          × (r.issue_id ≡ issue_id)
          × (r.attempt_number ≡ archived_attempt issue_id highest attempts))
unfolding archived_attempt
archived-taken issue_id [] highest = inl refl
archived-taken issue_id (a ∷ rest) highest = elim (Bool-cases (a.issue_id == issue_id)) [
  | inl own ↦ elim (Bool-cases (ltb_ℤ highest a.attempt_number)) [
    | inl larger ↦
        rw (own, larger)
          (elim (archived-taken issue_id rest a.attempt_number) [
            | inl same ↦
                inr (a, Memᴰ.head refl, (text_same.same_iff a.issue_id issue_id).0 own, sym same)
            | inr (r, m, e, number) ↦ inr (r, Memᴰ.tail m, e, number)
          ])
    | inr smaller ↦ rw (own, smaller) (later (archived-taken issue_id rest highest))
  ]
  | inr foreign ↦ rw foreign (later (archived-taken issue_id rest highest))
]
  where
    later :
        (archived_attempt issue_id highest rest ≡ highest)
          ⊎ ((r : IssueAttemptRecord) × Memᴰ r rest
              × (r.issue_id ≡ issue_id)
              × (r.attempt_number ≡ archived_attempt issue_id highest rest))
        → (archived_attempt issue_id highest rest ≡ highest)
          ⊎ ((r : IssueAttemptRecord) × Memᴰ r (a ∷ rest)
              × (r.issue_id ≡ issue_id)
              × (r.attempt_number ≡ archived_attempt issue_id highest rest))
    later (inl same) = inl same
    later (inr (r, m, e, number)) = inr (r, Memᴰ.tail m, e, number)

archived-IsHighest :
    (issue_id : String) (attempts : List IssueAttemptRecord)
    → IsHighest issue_id attempts (archived_attempt issue_id (pos 0) attempts)
archived-IsHighest issue_id attempts = record {
  least = archived-ge issue_id attempts (pos 0);
  above = λ r m e. archived-bound issue_id attempts (pos 0) m e;
  taken = archived-taken issue_id attempts (pos 0);
}

-- An issue on which work goes on: it is in development, in review or in QA.
abbrev pub IsWorkedOn : IssueStatus → Type 0
IsWorkedOn status =
    (status ≡ IssueStatus.in_development)
    ⊎ ((status ≡ IssueStatus.in_review) ⊎ (status ≡ IssueStatus.in_qa))

in_progress_iff : (status : IssueStatus) → (in_progress status ≡ true) ↔ IsWorkedOn status
in_progress_iff status = (
  busy status,
  λ w. elim w [
    | inl e ↦ ap in_progress e
    | inr (inl e) ↦ ap in_progress e
    | inr (inr e) ↦ ap in_progress e
  ],
)
  where
    busy : (x : IssueStatus) → in_progress x ≡ true → IsWorkedOn x
    busy IssueStatus.in_development h = inl refl
    busy IssueStatus.in_review h = inr (inl refl)
    busy IssueStatus.in_qa h = inr (inr refl)
    busy IssueStatus.planned h = cc
    busy IssueStatus.pending h = cc
    busy IssueStatus.ready h = cc
    busy IssueStatus.changes_requested h = cc
    busy IssueStatus.completed h = cc
    busy IssueStatus.blocked h = cc
    busy IssueStatus.failed h = cc

-- The attempt number of a row is the highest of the archived attempts of its issue, or 0 where all
-- are lower, and one more where the issue is in development, in review or in QA.
pub board_row-attempts :
    (states : List IssueRuntimeState) (attempts : List IssueAttemptRecord) (issue : PlannedIssue)
    → let row = board_row states attempts issue in
      (highest : ℤ) × IsHighest issue.issue_id attempts highest
      × (IsWorkedOn row.status → row.attempt_number ≡ highest +ℤ pos 1)
      × (¬ IsWorkedOn row.status → row.attempt_number ≡ highest)
unfolding board_row
board_row-attempts states attempts issue =
    let status = status_or_pending (state_by_id states issue.issue_id) in
    (
      archived_attempt issue.issue_id (pos 0) attempts,
      archived-IsHighest issue.issue_id attempts,
      λ w. rw ((in_progress_iff status).1 w) refl,
      λ idle. elim (Bool-cases (in_progress status)) [
        | inl busy ↦ absurd (idle ((in_progress_iff status).0 busy))
        | inr rests ↦ rw rests refl
      ],
    )
