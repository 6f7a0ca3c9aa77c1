-- ===== src/Domain/Approval/Tokens.antt =====
-- The words of a command and the boundary of the paths among them: `_unquote`, `_looks_like_path`,
-- `_path_token`, `_token_boundary`, `_resolved_boundary`, `_path_boundary` and `_is_focused_test` of
-- src/devloop/domain/approval.py.
use devloop.Domain.Approval.{is_unknown, is_outside, PathBoundary}
use devloop.Prelude.{
  contains, true, ◌>>=◌, nat_beq, text_same, [], not, err, ◌||◌, any, ok, false, ◌&&◌, map, ◌==◌,
  none, some, Bool, if◌then◌else◌, Option, ◌∷◌, String, Result, List,
}
use Prim.Native.Char.{Char, code}
use text.Mathlib.Text.{starts_with}

-- The compiled patterns of the source.
pub data Pattern : Type 0 where
  shell_control executable_path windows_absolute powershell_provider : Pattern

pub data PathError : Type 0 where
  value_error os_error : PathError

-- What the code takes from Python's library: `re`, `shlex`, `hashlib`, `str` and `pathlib`. `resolve`
-- has the value of `strict` first; `relative_to` and `windows_relative_to` say whether the call
-- of that name returns.
pub record ShellLibrary : Type 0 where
  pub match_pattern : Pattern → String → Bool
  pub strip : String → String
  pub lower : String → String
  pub casefold : String → String
  pub title : String → String
  pub sha256 : String → String
  pub shlex_split : String → Option (List String)
  pub base_name : String → String
  pub is_absolute : String → Bool
  pub join_path : String → String → String
  pub resolve : Bool → String → Result PathError String
  pub relative_to : String → String → Bool
  pub windows_parts : String → List String
  pub windows_drive : String → String
  pub windows_relative_to : String → String → Bool

-- `value.split("=", 1)[1]` where the value contains `=`.
abbrev pub after_equals : String → Option String
after_equals String.[] = none
after_equals (String.◌∷◌ c rest) =
    let later = after_equals rest in if nat_beq (code c) 61 then some rest else later

-- A character is `/` or a backslash.
abbrev pub has_separator : String → Bool
has_separator String.[] = false
has_separator (String.◌∷◌ c rest) = nat_beq (code c) 47 || nat_beq (code c) 92 || has_separator rest

abbrev pub ends_with_char : Char → String → Bool
ends_with_char c String.[] = false
ends_with_char c (String.◌∷◌ d String.[]) = nat_beq (code c) (code d)
ends_with_char c (String.◌∷◌ d (String.◌∷◌ e rest)) = ends_with_char c (String.◌∷◌ e rest)

abbrev pub without_last : String → String
without_last String.[] = String.[]
without_last (String.◌∷◌ c String.[]) = String.[]
without_last (String.◌∷◌ c (String.◌∷◌ d rest)) = String.◌∷◌ c (without_last (String.◌∷◌ d rest))

-- `_unquote`
unfoldable pub unquote : String → String
unquote String.[] = String.[]
unquote (String.◌∷◌ c rest) =
    if ends_with_char c rest && (nat_beq (code c) 34 || nat_beq (code c) 39)
    then without_last rest
    else String.◌∷◌ c rest

module _ (library : ShellLibrary) where
  open library use {
    match_pattern, lower, casefold, is_absolute, join_path, resolve, relative_to, windows_parts,
    windows_drive, windows_relative_to,
  }

  -- `_is_focused_test`
  unfoldable pub is_focused_test : List String → Bool
  is_focused_test (executable ∷ flag ∷ name ∷ rest) =
      lower flag == "-m"
      && lower name == "pytest"
      && not (contains (map lower (executable ∷ flag ∷ name ∷ rest)) "--collect-only")
  is_focused_test _ = false

  -- `_looks_like_path`
  unfoldable pub looks_like_path : String → Bool
  looks_like_path value =
      if starts_with value "-" || (starts_with value "/" && starts_with (lower value) "/grant")
      then false
      else value == "."
        || value == ".."
        || match_pattern powershell_provider value
        || has_separator value

  abbrev pub path_or_none : String → Option String
  unfolding looks_like_path
  path_or_none value = if looks_like_path value then some value else none

  -- `_path_token`
  unfoldable pub path_token : String → Option String
  unfolding path_or_none
  path_token value =
      if starts_with value "-"
      then elim (after_equals value) [
        | none ↦ path_or_none value
        | some candidate ↦ path_or_none candidate
      ]
      else path_or_none value

  abbrev pub boundary_of : Result PathError Bool → PathBoundary
  boundary_of (ok true) = PathBoundary.workspace
  boundary_of (ok false) = PathBoundary.outside_workspace
  boundary_of (err value_error) = PathBoundary.outside_workspace
  boundary_of (err os_error) = PathBoundary.unknown

  -- `_resolved_boundary`
  unfoldable pub resolved_boundary : String → String → PathBoundary
  resolved_boundary candidate root =
      boundary_of (
        resolve false candidate >>= λ path.
        resolve true root >>= λ base. ok (relative_to path base))

  -- `_token_boundary`
  unfoldable pub token_boundary : String → String → String → PathBoundary
  unfolding resolved_boundary
  token_boundary value cwd root =
      if match_pattern powershell_provider value && not (match_pattern windows_absolute value)
      then PathBoundary.unknown
      else if match_pattern windows_absolute value
      then (if contains (windows_parts value) ".."
          then PathBoundary.unknown
          else if not (casefold (windows_drive value) == casefold (windows_drive root))
          then PathBoundary.outside_workspace
          else if windows_relative_to value root
          then PathBoundary.workspace
          else PathBoundary.outside_workspace)
      else resolved_boundary (if is_absolute value then value else join_path cwd value) root

  abbrev pub candidates_of : List String → List String
  candidates_of [] = []
  candidates_of (item ∷ rest) = elim (path_token item) [
    | none ↦ candidates_of rest
    | some candidate ↦ candidate ∷ candidates_of rest
  ]

  -- The boundary of the set of the boundaries of the candidates.
  abbrev pub joint_boundary : List PathBoundary → PathBoundary
  joint_boundary boundaries =
      if any is_outside boundaries
      then PathBoundary.outside_workspace
      else if any is_unknown boundaries
      then PathBoundary.unknown
      else PathBoundary.workspace

  -- The boundary of the paths that a command names; without any it is that of the directory.
  unfoldable pub candidates_boundary : String → String → List String → PathBoundary
  candidates_boundary cwd root [] = resolved_boundary cwd root
  candidates_boundary cwd root (first ∷ rest) =
      joint_boundary (map (λ item. token_boundary item cwd root) (first ∷ rest))

  -- `_path_boundary`
  unfoldable pub path_boundary : List String → String → String → PathBoundary
  path_boundary tokens cwd root = candidates_boundary cwd root (candidates_of tokens)
