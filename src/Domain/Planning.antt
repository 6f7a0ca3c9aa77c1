-- ===== src/Domain/Planning.antt =====
-- The accepted planning package of src/devloop/domain/planning.py.
use devloop.Prelude.{String, List}
use devloop.Prelude.Int.{ℤ}

pub record PlannedIssue : Type 0 where
  pub issue_id : String
  pub position : ℤ
  pub title : String
  pub filename : String
  pub content_hash : String
  pub requirement_ids : List String
  pub dependencies : List String
  pub acceptance_criterion_ids : List String
  pub markdown : String

pub record PlanningPackage : Type 0 where
  pub root : String
  pub prd_markdown : String
  pub prd_hash : String
  pub issue_set_hash : String
  pub issues : List PlannedIssue
