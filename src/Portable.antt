-- ===== src/Portable.antt =====
-- The portable runner's planning logic: the dependency graph of an issue pack and the projection
-- that chooses the next issue (src/devloop/issue_scheduler.py).
pub mod Graph
pub mod Schedule
