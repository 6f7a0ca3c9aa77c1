-- ===== src/Domain.antt =====
-- The domain layer of CodexCLI: src/devloop/domain. Identifiers (issue, thread, step, attempt,
-- component and criterion numbers) are the texts that they wrap: two are equal when the texts are.
pub mod Run
pub mod Outcomes
pub mod Development
pub mod Doctor
pub mod Planning
pub mod Attempts
pub mod Scheduler
pub mod ReviewQa
pub mod Approval
pub mod Execution
pub mod Capabilities
