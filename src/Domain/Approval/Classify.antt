-- ===== src/Domain/Approval/Classify.antt =====
-- `classify_command`, `classify_non_command` and `_classification` of
-- src/devloop/domain/approval.py.
use devloop.Domain.Approval.Tokens.{
  unquote, shell_control, executable_path, resolved_boundary, path_boundary, is_focused_test,
  ShellLibrary,
}
use devloop.Prelude.{
  map, ◌||◌, text_same, ◌==◌, [], not, ◌&&◌, contains, if◌then◌else◌, any, some, true, none, ◌∷◌,
  false, Option, Bool, String, List,
}
use devloop.Domain.Approval.{
  other, user_decision, windows_acl_handoff, focused_test, is_outside, workspace_read, is_workspace,
  git_inspection, unsupported, unknown, ambiguous, not_applicable, outside_workspace,
  ApprovalClassification, ApprovalPolicy, PathBoundary, CommandFamily, family_same, file_change,
  permissions,
}
use Prim.Native.String.{◌++◌ as cat}

pub record ClassifiedApproval : Type 0 where
  pub policy : ApprovalPolicy
  pub family : CommandFamily
  pub boundary : PathBoundary
  pub classification : ApprovalClassification
  pub parsed_action : String
  pub reason : String
  pub command_hash : String
  pub auto_decision : Option String

-- `_READ_ONLY_GIT`, `_READ_COMMANDS` and `_PYTHON_NAMES`
abbrev pub read_only_git : List String
read_only_git = "diff" ∷ "log" ∷ "show" ∷ "status" ∷ "rev-parse" ∷ "ls-files" ∷ []

abbrev pub read_commands : List String
read_commands = "rg" ∷ "sed" ∷ "head" ∷ "tail" ∷ "wc" ∷ "findstr" ∷ "type" ∷ "cat" ∷ []

abbrev pub python_names : List String
python_names = "python" ∷ "python3" ∷ "py" ∷ []

-- `_classification`
unfoldable pub classified :
    ApprovalPolicy → CommandFamily → PathBoundary → String → String → String → ClassifiedApproval
classified policy family boundary action reason command_hash =
    let answer : ApprovalClassification → String → ClassifiedApproval = λ c text. record {
      policy = policy;
      family = family;
      boundary = boundary;
      classification = c;
      parsed_action = action;
      reason = text;
      command_hash = command_hash;
      auto_decision = none;
    } in
    if not (contains policy.command_families family)
    then answer unsupported "The locked component policy does not permit this command family."
    else if is_workspace policy.path_boundary && is_outside boundary
    then answer unsupported "The locked component policy does not permit out-of-workspace access."
    else answer user_decision reason

-- `family.value.replace("_", " ")`
abbrev family_words : CommandFamily → String
family_words git_inspection = "GIT INSPECTION"
family_words workspace_read = "WORKSPACE READ"
family_words focused_test = "FOCUSED TEST"
family_words windows_acl_handoff = "WINDOWS ACL HANDOFF"
family_words file_change = "FILE CHANGE"
family_words permissions = "PERMISSIONS"
family_words other = "OTHER"
family_words ambiguous = "AMBIGUOUS"

abbrev pub is_acl_handoff : CommandFamily → Bool
is_acl_handoff windows_acl_handoff = true
is_acl_handoff _ = false

-- The reason that the boundary of a command gives.
abbrev pub boundary_reason : PathBoundary → String
boundary_reason outside_workspace =
    "The request names a path outside the selected workspace; approve only explicitly."
boundary_reason unknown =
    "The request path boundary is unknown and requires an explicit user decision."
boundary_reason _ = "The request is inside the selected workspace and still requires your decision."

module _ (library : ShellLibrary) where
  open library use {match_pattern, strip, lower, casefold, title, sha256, shlex_split, base_name}

  abbrev is_read_only_git : List String → Bool
  is_read_only_git [] = false
  is_read_only_git (subcommand ∷ _) = contains read_only_git (lower subcommand)

  abbrev subcommand_of : List String → String
  subcommand_of [] = ""
  subcommand_of (subcommand ∷ _) = lower subcommand

  abbrev run_action : String → String
  run_action executable =
      cat "Run " (if executable == "" then "an unknown executable" else executable)

  -- The family and the action of the words `executable ∷ rest`.
  unfoldable pub family_of : String → List String → CommandFamily × String
  unfolding is_focused_test
  family_of command rest =
      let executable = lower (base_name command) in
      if executable == "git" && is_read_only_git rest
      then (git_inspection, cat "Read-only Git " (subcommand_of rest))
      else if contains read_commands executable
      then (workspace_read, cat "Bounded workspace read with " executable)
      else if contains python_names executable && is_focused_test library (command ∷ rest)
      then (focused_test, "Run focused Python verification")
      else if executable == "icacls" || executable == "icacls.exe"
      then (windows_acl_handoff, "Grant a non-recursive Windows workspace ACL")
      else (other, run_action executable)

  -- A word asks for a recursive grant.
  abbrev pub is_recursive : List String → Bool
  is_recursive tokens = any (λ item. casefold item == "/t") tokens

  -- `classify_command` where the command has words and the first is not a path.
  unfoldable pub classify_words :
      String → String → String → ApprovalPolicy → String → List String → ClassifiedApproval
  unfolding classified family_of
  classify_words digest cwd root policy command rest =
      let boundary = path_boundary library rest cwd root in
      let (family, action) = family_of command rest in
      if is_acl_handoff family && (is_recursive (command ∷ rest) || not (is_workspace boundary))
      then record {
        policy = policy;
        family = family;
        boundary = boundary;
        classification = unsupported;
        parsed_action = action;
        reason = "Recursive or out-of-workspace ACL grants are rejected by the locked policy.";
        command_hash = digest;
        auto_decision = none;
      }
      else classified policy family boundary action (boundary_reason boundary) digest

  abbrev pub ambiguous_request : ApprovalPolicy → String → String → String → ClassifiedApproval
  ambiguous_request policy action reason digest =
      classified policy ambiguous unknown action reason digest

  abbrev pub executable_path_request : ApprovalPolicy → String → ClassifiedApproval
  executable_path_request policy digest =
      ambiguous_request policy "Executable path request"
        "Executable paths fail closed and require an explicit user decision." digest

  -- `classify_command` on the words that the command is split into.
  unfoldable pub classify_tokens :
      String → String → String → ApprovalPolicy → List String → ClassifiedApproval
  classify_tokens digest cwd root policy [] = executable_path_request policy digest
  classify_tokens digest cwd root policy (command ∷ rest) =
      if match_pattern executable_path command
      then executable_path_request policy digest
      else classify_words digest cwd root policy command rest

  unfoldable pub classify_command : String → String → String → ApprovalPolicy → ClassifiedApproval
  unfolding classify_tokens
  classify_command command cwd root policy =
      let text = strip command in
      let digest = sha256 text in
      if text == "" || match_pattern shell_control text
      then ambiguous_request policy "Compound or ambiguous shell request"
          "Shell operators or substitutions require an explicit user decision." digest
      else elim (shlex_split text) [
        | none ↦
            ambiguous_request policy "Unparseable shell request"
              "The command could not be parsed and requires an explicit user decision." digest
        | some words ↦ classify_tokens digest cwd root policy (map unquote words)
      ]

  abbrev target_boundary : Option String → String → PathBoundary
  target_boundary none root = not_applicable
  target_boundary (some target) root = resolved_boundary library target root

  abbrev target_text : Option String → String
  target_text none = ""
  target_text (some target) = target

  unfoldable pub classify_non_command :
      CommandFamily → Option String → String → ApprovalPolicy → ClassifiedApproval
  classify_non_command family target root policy =
      classified policy family (target_boundary target root) (title (family_words family))
        "Codex requested an explicit user decision under the locked component policy."
        (sha256 (target_text target))
