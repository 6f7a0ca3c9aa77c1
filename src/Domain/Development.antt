-- ===== src/Domain/Development.antt =====
-- Issue states and rework resolutions of src/devloop/domain/development.py.
pub mod Rework
mod Samples
use devloop.Prelude.{
  String, List, Option, Bool, true, false, ◌==◌, text_same, Result, ok, err, guard, raise_if, ◌>>=◌,
  ◌>>◌, all_unique, map, contains, all, any, not, ◌&&◌,
}

pub data IssueStatus : Type 0 where
  planned pending ready in_development in_review in_qa changes_requested completed blocked failed :
      IssueStatus

pub data ChangeKind : Type 0 where
  added modified deleted renamed untracked : ChangeKind

pub data ReworkResolutionStatus : Type 0 where
  resolved not_applicable unresolved : ReworkResolutionStatus

pub record WorkspaceBaselineEntry : Type 0 where
  pub path : String
  pub kind : ChangeKind
  pub content_hash : Option String

pub record IssueRuntimeState : Type 0 where
  pub issue_id : String
  pub status : IssueStatus
  pub current_step : Option String
  pub repository_baseline : Option (List WorkspaceBaselineEntry)
  pub owned_paths : List String

pub record ArtifactRef : Type 0 where
  pub path : String
  pub content_hash : String

pub record ReworkResolution : Type 0 where
  pub rework_id : String
  pub status : ReworkResolutionStatus
  pub evidence : String

pub data ReworkError : Type 0 where
  repeated_request repeated_resolution not_covered left_unresolved : ReworkError

-- `set(xs) == set(ys)`
abbrev pub same_set : List String → List String → Bool
same_set xs ys = all (contains ys) xs && all (contains xs) ys

abbrev pub is_settled : ReworkResolutionStatus → Bool
is_settled resolved = true
is_settled not_applicable = true
is_settled unresolved = false

unfoldable pub validate_rework_resolutions :
    List String → List ReworkResolution → Result ReworkError Unit
validate_rework_resolutions expected_ids resolutions = do
  guard (all_unique expected_ids) repeated_request
  let actual_ids = map (λ (item : ReworkResolution). item.rework_id) resolutions
  guard (all_unique actual_ids) repeated_resolution
  guard (same_set actual_ids expected_ids) not_covered
  raise_if (any (λ (item : ReworkResolution). not (is_settled item.status)) resolutions)
      left_unresolved
