-- ===== src/Domain/Scheduler/Refresh.antt =====
-- `refresh_issue_states` of src/devloop/domain/scheduler.py is stable.
use mathlib.Core.Option
use devloop.Domain.Development.{IssueStatus, IssueRuntimeState}
use devloop.Domain.Planning.{PlannedIssue, PlanningPackage}
use devloop.Prelude.{
  find_last-eq-none, sym, ◌∙◌, false≢true, mem-map, contains_intro, or_else, [], ◌∎, contains_elim,
  all, mem_of_mem-map, ◌∷◌, ap, false, if◌then◌else◌, none, Bool, map_cong, some, arith, find_last,
  ◌≡⟨◌⟩◌, ◌⊎◌, ◌==◌, find_last-eq-some, refl, inr, text_same, true, inl, contains, Option-cases,
  Option, map, ◌≡◌, Memᴰ, String, List,
}
use devloop.Domain.Scheduler.{
  state_by_id, is_kept, is_completed, test_status, is_complete, status_or_planned, with_status,
  refreshed_status, refresh_issue, refresh_issue_states,
}

abbrev pub issue_ids : PlanningPackage → List String
issue_ids plan = map (λ (issue : PlannedIssue). issue.issue_id) plan.issues

-- Each dependency of an issue is an issue of the package.
abbrev pub IsClosed : PlanningPackage → Type 0
IsClosed plan =
    (issue : PlannedIssue) (dependency : String)
    → Memᴰ issue plan.issues
    → contains issue.dependencies dependency ≡ true
    → contains (issue_ids plan) dependency ≡ true

is_complete_lem :
    (states : List IssueRuntimeState) (issue_id : String)
    → is_complete states issue_id ≡ test_status is_completed (state_by_id states issue_id)
unfolding is_complete
is_complete_lem states issue_id = refl

module _ (states : List IssueRuntimeState) where
  -- A refreshed state is that of its issue.
  issue_id-refresh : (issue : PlannedIssue) → (refresh_issue states issue).issue_id ≡ issue.issue_id
  unfolding refresh_issue
  issue_id-refresh issue = elim (Option-cases (state_by_id states issue.issue_id)) [
    | inl missing ↦ rw missing refl
    | inr (state, found) ↦ rw found (
        (text_same.same_iff state.issue_id issue.issue_id).0
          (find_last-eq-some (λ (item : IssueRuntimeState). item.issue_id == issue.issue_id) states
            found).1)
  ]

  pub status-refresh :
      (issue : PlannedIssue) → (refresh_issue states issue).status ≡ refreshed_status states issue
  unfolding refresh_issue
  status-refresh issue = elim (Option-cases (state_by_id states issue.issue_id)) [
    | inl missing ↦ rw missing refl
    | inr (state, found) ↦ rw found refl
  ]

  -- After a refresh the state of an issue is the refreshed one of the last issue with its number.
  pub state_by_id-refresh :
      (issues : List PlannedIssue) (issue_id : String)
      → state_by_id (map (refresh_issue states) issues) issue_id
        ≡ Option.map
            (refresh_issue states)
            (find_last (λ (issue : PlannedIssue). issue.issue_id == issue_id) issues)
  state_by_id-refresh [] issue_id = refl
  state_by_id-refresh (issue ∷ issues) issue_id =
      let found = find_last (λ (i : PlannedIssue). i.issue_id == issue_id) issues in
      let fresh = refresh_issue states issue in
      ap (λ o. or_else o (if fresh.issue_id == issue_id then some fresh else none))
        (state_by_id-refresh issues issue_id)
      ∙ ap
          (λ n.
            or_else (Option.map (refresh_issue states) found)
              (if n == issue_id then some fresh else none))
          (issue_id-refresh issue)
      ∙ distribute found (issue.issue_id == issue_id)
    where
      distribute :
          (found : Option PlannedIssue) (b : Bool)
          → or_else
              (Option.map (refresh_issue states) found)
              (if b then some (refresh_issue states issue) else none)
            ≡ Option.map (refresh_issue states) (or_else found (if b then some issue else none))
      distribute none true = refl
      distribute none false = refl
      distribute (some i) b = refl

  -- A refresh completes no issue and uncompletes none.
  completed-refreshed :
      (issue : PlannedIssue)
      → is_completed (refreshed_status states issue) ≡ is_complete states issue.issue_id
  unfolding refreshed_status is_complete
  completed-refreshed issue = ground arith

  kept_or_open :
      (issue : PlannedIssue)
      → (refreshed_status states issue ≡ status_or_planned (state_by_id states issue.issue_id))
        ⊎ (is_kept (refreshed_status states issue) ≡ false)
  unfolding refreshed_status
  kept_or_open issue = ground arith

pub with_status-twice :
    (existing : Option IssueRuntimeState) (issue_id again : String) (s t : IssueStatus)
    → with_status (some (with_status existing issue_id s)) again t ≡ with_status existing issue_id t
with_status-twice none issue_id again s t = refl
with_status-twice (some state) issue_id again s t = refl

pub all_cong :
    (p q : String → Bool) (xs : List String)
    → ((x : String) → Memᴰ x xs → p x ≡ q x)
    → all p xs ≡ all q xs
all_cong p q [] h = refl
all_cong p q (x ∷ xs) h = rw (h x (Memᴰ.head refl), all_cong p q xs (λ y m. h y (Memᴰ.tail m))) refl

module _ (plan : PlanningPackage) (states : List IssueRuntimeState) where
  -- The issue of the plan that decides the state under a number of the plan.
  pub state-refresh :
      (issue_id : String)
      → contains (issue_ids plan) issue_id ≡ true
      → (issue : PlannedIssue) × Memᴰ issue plan.issues
        × (issue.issue_id ≡ issue_id)
        × (state_by_id (refresh_issue_states plan states) issue_id
            ≡ some (refresh_issue states issue))
  unfolding refresh_issue_states
  state-refresh issue_id m =
      let test = λ (i : PlannedIssue). i.issue_id == issue_id in
      elim (Option-cases (find_last test plan.issues)) [
        | inl missing ↦
            let (issue, listed, same) =
              mem_of_mem-map (λ (i : PlannedIssue). i.issue_id) plan.issues
                (contains_elim (issue_ids plan) issue_id m) in
            absurd (
              false≢true (
                sym (find_last-eq-none test plan.issues missing listed)
                ∙ (text_same.same_iff issue.issue_id issue_id).1 same))
        | inr (issue, found) ↦
            let (listed, same) = find_last-eq-some test plan.issues found in
            (
              issue,
              listed,
              (text_same.same_iff issue.issue_id issue_id).0 same,
              state_by_id-refresh states plan.issues issue_id
                  ∙ ap (Option.map (refresh_issue states)) found,
            )
      ]

  pub complete-refresh :
      (issue_id : String)
      → contains (issue_ids plan) issue_id ≡ true
      → is_complete (refresh_issue_states plan states) issue_id ≡ is_complete states issue_id
  complete-refresh issue_id m =
      let (issue, _, same, found) = state-refresh issue_id m in
      is_complete (refresh_issue_states plan states) issue_id
      ≡⟨ is_complete_lem (refresh_issue_states plan states) issue_id
        ∙ ap (test_status is_completed) found ⟩
        is_completed (refresh_issue states issue).status
      ≡⟨ ap is_completed (status-refresh states issue) ⟩
        is_completed (refreshed_status states issue)
      ≡⟨ completed-refreshed states issue ⟩ is_complete states issue.issue_id
      ≡⟨ ap (is_complete states) same ⟩ is_complete states issue_id ∎

  -- The status is settled by the first refresh.
  refreshed_status-stable :
      IsClosed plan
      → (issue : PlannedIssue) → Memᴰ issue plan.issues
      → refreshed_status (refresh_issue_states plan states) issue ≡ refreshed_status states issue
  unfolding refreshed_status
  refreshed_status-stable closed issue m =
      let (other, _, same, found) = state-refresh issue.issue_id (
        contains_intro (issue_ids plan)
          (mem-map (λ (i : PlannedIssue). i.issue_id) plan.issues m)) in
      let deps =
        all_cong (is_complete (refresh_issue_states plan states)) (is_complete states)
          issue.dependencies
          (λ d at_d.
            complete-refresh d (closed issue d m (contains_intro issue.dependencies at_d))) in
      let st = ap status_or_planned found ∙ status-refresh states other in
      let here = ap (λ i. status_or_planned (state_by_id states i)) same in
      rw (st, deps)
        (settle (status_or_planned (state_by_id states other.issue_id))
          (status_or_planned (state_by_id states issue.issue_id)) here
          (all (is_complete states) other.dependencies)
          (all (is_complete states) issue.dependencies))
    where
      settle :
          (a b : IssueStatus)
          → a ≡ b
          → (c d : Bool)
          → (let mid =
                if is_kept a then a else if c then IssueStatus.ready else IssueStatus.pending in
              if is_kept mid then mid else if d then IssueStatus.ready else IssueStatus.pending)
            ≡ (if is_kept b then b else if d then IssueStatus.ready else IssueStatus.pending)
      settle a b e c d = ground arith

  refresh_issue-stable :
      IsClosed plan
      → (issue : PlannedIssue) → Memᴰ issue plan.issues
      → refresh_issue (refresh_issue_states plan states) issue ≡ refresh_issue states issue
  unfolding refresh_issue
  refresh_issue-stable closed issue m =
      let (other, _, same, found) = state-refresh issue.issue_id (
        contains_intro (issue_ids plan)
          (mem-map (λ (i : PlannedIssue). i.issue_id) plan.issues m)) in
      let again = refreshed_status (refresh_issue_states plan states) issue in
      ap (λ o. with_status o issue.issue_id again) found
      ∙ with_status-twice (state_by_id states other.issue_id) other.issue_id issue.issue_id
          (refreshed_status states other) again
      ∙ ap (λ i. with_status (state_by_id states i) i again) same
      ∙ ap (with_status (state_by_id states issue.issue_id) issue.issue_id)
          (refreshed_status-stable closed issue m)

-- A second refresh changes nothing, where each dependency of an issue is an issue of the plan.
pub refresh_idempotent :
    (plan : PlanningPackage) (states : List IssueRuntimeState)
    → IsClosed plan
    → refresh_issue_states plan (refresh_issue_states plan states)
      ≡ refresh_issue_states plan states
unfolding refresh_issue_states
refresh_idempotent plan states closed =
    map_cong plan.issues (refresh_issue-stable plan states closed)
