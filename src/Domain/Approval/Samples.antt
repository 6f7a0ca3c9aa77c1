-- ===== src/Domain/Approval/Samples.antt =====
-- A command under a read-only policy, and the theorems about src/devloop/domain/approval.py at it.
use devloop.Domain.Approval.Classify.{classify_command, classify_words}
use devloop.Domain.Approval.Bounds.{classify_command-IsPermitted, IsPermitted}
use devloop.Domain.Approval.Tokens.{
  powershell_provider, windows_absolute, executable_path, path_token, shell_control, token_boundary,
  candidates_boundary, path_boundary, ShellLibrary, Pattern, unquote,
}
use devloop.Prelude.{
  none, [], ◌∷◌, some, ok, false, refl, Bool, ◌==◌, if◌then◌else◌, ◌≡◌, String, text_same,
}
use devloop.Domain.Approval.{
  standard_options, PathBoundary, read_only_families, standard_version, approval_policy_schema,
  check_policy, ApprovalPolicy, read_only, family_same, user_decision,
}
use text.Mathlib.Text.{starts_with}

abbrev matches : Pattern → String → Bool
matches shell_control text = text == "a; b"
matches executable_path text = starts_with text "./"
matches windows_absolute text = starts_with text "C:"
matches powershell_provider text = false

-- The workspace is "/w"; a path is resolved to itself, and the words are those of one command.
abbrev library : ShellLibrary
library = record {
  match_pattern = matches;
  strip = λ text. text;
  lower = λ text. text;
  casefold = λ text. text;
  title = λ text. text;
  sha256 = λ text. text;
  shlex_split = λ text. if text == "rg x /w/a" then some ("rg" ∷ "x" ∷ "/w/a" ∷ []) else none;
  base_name = λ text. text;
  is_absolute = λ text. starts_with text "/";
  join_path = λ base text. base;
  resolve = λ strict path. ok path;
  relative_to = λ path base. starts_with path base;
  windows_parts = λ text. text ∷ [];
  windows_drive = λ text. text;
  windows_relative_to = λ path base. starts_with path base;
}

abbrev policy : ApprovalPolicy
policy = record {
  schema = approval_policy_schema;
  version = standard_version;
  component_id = "devloop.qa";
  command_families = read_only_families false;
  path_boundary = PathBoundary.workspace;
  decision_options = standard_options;
}

read_only_run : read_only "devloop.qa" false ≡ ok policy
unfolding read_only check_policy
read_only_run = refl

search_waits :
    (classify_command library "rg x /w/a" "/w" "/w" policy).classification ≡ user_decision
unfolding classify_command unquote classify_words path_boundary candidates_boundary path_token
    token_boundary
search_waits = refl

outside_run : path_boundary library ("x" ∷ "/v/a" ∷ []) "/w" "/w" ≡ PathBoundary.outside_workspace
unfolding path_boundary candidates_boundary token_boundary path_token
outside_run = refl

may_wait_example : IsPermitted policy (classify_command library "rg x /w/a" "/w" "/w" policy)
may_wait_example = classify_command-IsPermitted library "rg x /w/a" "/w" "/w" policy search_waits
