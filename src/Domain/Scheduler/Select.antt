-- ===== src/Domain/Scheduler/Select.antt =====
-- The issue that src/devloop/domain/scheduler.py chooses next.
use devloop.Domain.Development.{IssueStatus, IssueRuntimeState}
use devloop.Domain.Planning.{PlannedIssue, PlanningPackage}
use devloop.Prelude.{
  inr, inl, ◌⊎◌, ◌↔◌, Option, find-eq-none, false≢true, ◌∙◌, refl, text_same, sym, ap,
  eq_of_same_key, all_elim, find-eq-some, arith, String, mem-map, all_intro, none, true,
  contains_intro, false, some, ◌≡◌, Memᴰ, Distinct, List,
}
use devloop.Domain.Scheduler.{
  is_completed, refresh_issue_states, select_next_ready_issue, is_complete, is_ready, test_status,
  state_by_id, refreshed_status, is_kept, status_or_planned,
}
use devloop.Domain.Scheduler.Refresh.{issue_ids, state-refresh, status-refresh}

-- An issue that was not started: it has no state, or one that is planned, pending or ready.
abbrev pub Unstarted : Option IssueRuntimeState → Type 0
Unstarted none = Unit
Unstarted (some state) =
    (state.status ≡ IssueStatus.planned)
    ⊎ ((state.status ≡ IssueStatus.pending) ⊎ (state.status ≡ IssueStatus.ready))

-- An issue that was not started, and whose dependencies all have a state that is completed.
pub record CanStart (states : List IssueRuntimeState) (issue : PlannedIssue) : Type 0 where
  pub unstarted : Unstarted (state_by_id states issue.issue_id)
  pub unblocked :
      (d : String)
      → Memᴰ d issue.dependencies
      → (state : IssueRuntimeState) × (state_by_id states d ≡ some state)
        × (state.status ≡ IssueStatus.completed)

kept_status :
    (status : IssueStatus)
    → is_kept status ≡ false
    → (status ≡ IssueStatus.planned)
      ⊎ ((status ≡ IssueStatus.pending) ⊎ (status ≡ IssueStatus.ready))
kept_status IssueStatus.planned h = inl refl
kept_status IssueStatus.pending h = inr (inl refl)
kept_status IssueStatus.ready h = inr (inr refl)
kept_status IssueStatus.in_development h = cc
kept_status IssueStatus.in_review h = cc
kept_status IssueStatus.in_qa h = cc
kept_status IssueStatus.changes_requested h = cc
kept_status IssueStatus.completed h = cc
kept_status IssueStatus.blocked h = cc
kept_status IssueStatus.failed h = cc

completed_status :
    (status : IssueStatus) → is_completed status ≡ true → status ≡ IssueStatus.completed
completed_status IssueStatus.completed h = refl
completed_status IssueStatus.planned h = cc
completed_status IssueStatus.pending h = cc
completed_status IssueStatus.ready h = cc
completed_status IssueStatus.in_development h = cc
completed_status IssueStatus.in_review h = cc
completed_status IssueStatus.in_qa h = cc
completed_status IssueStatus.changes_requested h = cc
completed_status IssueStatus.blocked h = cc
completed_status IssueStatus.failed h = cc

Unstarted-iff :
    (found : Option IssueRuntimeState)
    → (is_kept (status_or_planned found) ≡ false) ↔ Unstarted found
Unstarted-iff none = (λ h. tt, λ u. refl)
Unstarted-iff (some state) = (
  kept_status state.status,
  λ u. elim u [ inl e ↦ ap is_kept e | inr (inl e) ↦ ap is_kept e | inr (inr e) ↦ ap is_kept e ],
)

complete_iff :
    (found : Option IssueRuntimeState)
    → (test_status is_completed found ≡ true) ↔ (
        (state : IssueRuntimeState) × (found ≡ some state) × (state.status ≡ IssueStatus.completed))
complete_iff none = (λ h. cc, λ (state, e, same). cc)
complete_iff (some found) = (
  λ h. (found, refl, completed_status found.status h),
  λ (state, e, same). ap (test_status is_completed) e ∙ ap is_completed same,
)

ready→CanStart :
    (states : List IssueRuntimeState) (issue : PlannedIssue)
    → is_ready (refreshed_status states issue) ≡ true
    → CanStart states issue
unfolding refreshed_status is_complete
ready→CanStart states issue h = record {
  unstarted = (Unstarted-iff (state_by_id states issue.issue_id)).0 (ground arith);
  unblocked = λ d m.
      (complete_iff (state_by_id states d)).0
        (all_elim (is_complete states) issue.dependencies (ground arith) m);
}

CanStart→ready :
    (states : List IssueRuntimeState) (issue : PlannedIssue)
    → CanStart states issue
    → is_ready (refreshed_status states issue) ≡ true
unfolding refreshed_status is_complete
CanStart→ready states issue c =
    rw ((Unstarted-iff (state_by_id states issue.issue_id)).1 c.unstarted) (
      rw
        (all_intro (is_complete states) issue.dependencies
          (λ d m. (complete_iff (state_by_id states d)).1 (c.unblocked d m)))
        refl)

module _ (plan : PlanningPackage) (states : List IssueRuntimeState)
    (unique : Distinct (issue_ids plan)) where
  -- Where numbers are distinct the test of the selection is `CanStart`.
  ready-refresh :
      (issue : PlannedIssue)
      → Memᴰ issue plan.issues
      → test_status is_ready (state_by_id (refresh_issue_states plan states) issue.issue_id)
        ≡ is_ready (refreshed_status states issue)
  ready-refresh issue m =
      let listed =
        contains_intro (issue_ids plan)
          (mem-map (λ (i : PlannedIssue). i.issue_id) plan.issues m) in
      let (other, at_other, same, found) = state-refresh plan states issue.issue_id listed in
      let one =
        eq_of_same_key (λ (i : PlannedIssue). i.issue_id) plan.issues unique at_other m same in
      ap (test_status is_ready) found
      ∙ ap is_ready (status-refresh states other)
      ∙ ap (λ i. is_ready (refreshed_status states i)) one

-- After a refresh of a plan without repeated numbers, the chosen issue is one of the plan that has
-- no state or is planned, pending or ready, and whose dependencies all have a state that is completed; and where none is chosen the plan has no
-- such issue.
pub select_refreshed :
    (plan : PlanningPackage) (states : List IssueRuntimeState)
    → Distinct (issue_ids plan)
    → ((issue : PlannedIssue)
        → select_next_ready_issue plan (refresh_issue_states plan states) ≡ some issue
        → Memᴰ issue plan.issues × CanStart states issue)
      × (select_next_ready_issue plan (refresh_issue_states plan states) ≡ none
          → (issue : PlannedIssue) → Memᴰ issue plan.issues
          → ¬ CanStart states issue)
unfolding select_next_ready_issue
select_refreshed plan states unique =
    let test = λ (item : PlannedIssue).
      test_status is_ready (state_by_id (refresh_issue_states plan states) item.issue_id) in
    (
      λ issue h.
          let (m, chosen) = find-eq-some test plan.issues h in
          (
            m,
            ready→CanStart states issue (sym (ready-refresh plan states unique issue m) ∙ chosen),
          ),
      λ h issue m c. false≢true (
          sym (find-eq-none test plan.issues h m)
          ∙ ready-refresh plan states unique issue m
          ∙ CanStart→ready states issue c),
    )
