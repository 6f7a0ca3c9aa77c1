-- ===== src/Domain/Approval.antt =====
-- Approval policies and the classification of requests of src/devloop/domain/approval.py. The
-- children say what requests name (Tokens) and how they are classified (Classify).
pub mod Tokens
pub mod Classify
pub mod Bounds
mod Samples
use devloop.Prelude.{
  ℕ, String, List, [], ◌∷◌, ◌++◌, Bool, true, false, not, ◌||◌, ◌&&◌, Option, none, some, Result,
  ok, err, guard, raise_if, ◌>>=◌, ◌>>◌, ◌==◌, text_same, contains, all_unique, Comparable, nat_beq,
  nat_beq_iff, keep, if◌then◌else◌, ◌≡◌, refl, ap, sym, ◌∙◌,
}

pub data CommandFamily : Type 0 where
  git_inspection workspace_read focused_test windows_acl_handoff file_change permissions other
        ambiguous :
      CommandFamily

pub data PathBoundary : Type 0 where
  workspace outside_workspace unknown not_applicable : PathBoundary

pub data ApprovalClassification : Type 0 where
  user_decision unsupported : ApprovalClassification

pub data ApprovalDecisionScope : Type 0 where
  once session denied run_aborted : ApprovalDecisionScope

pub data ApprovalError : Type 0 where
  unsupported_schema incomplete_provenance repeated_family repeated_option several_policies
        unsupported_decision :
      ApprovalError

-- Enum members are compared by their place in the enum.
abbrev pub family_place : CommandFamily → ℕ
family_place git_inspection = 0
family_place workspace_read = 1
family_place focused_test = 2
family_place windows_acl_handoff = 3
family_place file_change = 4
family_place permissions = 5
family_place other = 6
family_place ambiguous = 7

abbrev pub family_at : ℕ → CommandFamily
family_at n =
    if nat_beq n 0
    then git_inspection
    else if nat_beq n 1
    then workspace_read
    else if nat_beq n 2
    then focused_test
    else if nat_beq n 3
    then windows_acl_handoff
    else if nat_beq n 4
    then file_change
    else if nat_beq n 5
    then permissions
    else if nat_beq n 6
    then other
    else ambiguous

pub family_at-family_place : (f : CommandFamily) → family_at (family_place f) ≡ f
family_at-family_place git_inspection = refl
family_at-family_place workspace_read = refl
family_at-family_place focused_test = refl
family_at-family_place windows_acl_handoff = refl
family_at-family_place file_change = refl
family_at-family_place permissions = refl
family_at-family_place other = refl
family_at-family_place ambiguous = refl

instance abbrev pub family_same : Comparable CommandFamily
family_same = record {
  same = λ f g. nat_beq (family_place f) (family_place g);
  same_iff = λ f g. (
    λ h.
        sym (family_at-family_place f)
        ∙ ap family_at ((nat_beq_iff (family_place f) (family_place g)).0 h)
        ∙ family_at-family_place g,
    λ h. (nat_beq_iff (family_place f) (family_place g)).1 (ap family_place h),
  );
}

abbrev pub is_workspace : PathBoundary → Bool
is_workspace workspace = true
is_workspace _ = false

abbrev pub is_outside : PathBoundary → Bool
is_outside outside_workspace = true
is_outside _ = false

abbrev pub is_unknown : PathBoundary → Bool
is_unknown unknown = true
is_unknown _ = false

abbrev pub approval_policy_schema : String
approval_policy_schema = "devloop.approval-policy/v1"

abbrev pub standard_version : String
standard_version = "1.0.0"

abbrev pub standard_options : List String
standard_options = "accept" ∷ "acceptForSession" ∷ "decline" ∷ "cancel" ∷ []

pub record ApprovalPolicy : Type 0 where
  pub schema : String
  pub version : String
  pub component_id : String
  pub command_families : List CommandFamily
  pub path_boundary : PathBoundary
  pub decision_options : List String

-- `ApprovalPolicy.__post_init__`
unfoldable pub check_policy : ApprovalPolicy → Result ApprovalError Unit
check_policy policy = do
  guard (policy.schema == approval_policy_schema) unsupported_schema
  raise_if (policy.version == "" || policy.component_id == "") incomplete_provenance
  guard (all_unique policy.command_families) repeated_family
  guard (all_unique policy.decision_options) repeated_option

-- `cls(...)` with the fields that both class methods share.
abbrev new_policy : String → List CommandFamily → Result ApprovalError ApprovalPolicy
unfolding check_policy
new_policy component_id families =
    let policy : ApprovalPolicy = record {
      schema = approval_policy_schema;
      version = standard_version;
      component_id = component_id;
      command_families = families;
      path_boundary = workspace;
      decision_options = standard_options;
    } in
    check_policy policy >>= λ _. ok policy

unfoldable pub standard : String → Result ApprovalError ApprovalPolicy
unfolding new_policy
standard component_id = new_policy component_id (
    git_inspection ∷ workspace_read ∷ focused_test ∷ windows_acl_handoff ∷ file_change ∷ permissions
    ∷ other ∷ ambiguous ∷ [])

abbrev pub read_only_families : Bool → List CommandFamily
read_only_families focused_tests =
    (git_inspection ∷ workspace_read ∷ [])
    ++ (if focused_tests then focused_test ∷ [] else [])
    ++ other ∷ ambiguous ∷ []

unfoldable pub read_only : String → Bool → Result ApprovalError ApprovalPolicy
unfolding new_policy
read_only component_id focused_tests = new_policy component_id (read_only_families focused_tests)

unfoldable pub locked_approval_policy :
    List ApprovalPolicy → String → ApprovalPolicy → Result ApprovalError ApprovalPolicy
locked_approval_policy policies component_id fallback =
    choose (keep (λ (item : ApprovalPolicy). item.component_id == component_id) policies)
  where
    choose : List ApprovalPolicy → Result ApprovalError ApprovalPolicy
    choose [] = ok fallback
    choose (policy ∷ []) = ok policy
    choose _ = err several_policies

-- `_decision_scope`
unfoldable pub decision_scope : String → Result ApprovalError ApprovalDecisionScope
decision_scope decision =
    if decision == "accept"
    then ok once
    else if decision == "acceptForSession"
    then ok session
    else if decision == "decline"
    then ok denied
    else if decision == "cancel"
    then ok run_aborted
    else err unsupported_decision
