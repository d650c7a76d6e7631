-- ===== src/Domain.antt =====
-- src/research_platform/domain: the records and rules that the other parts share.
pub mod Status
pub mod Access
pub mod Evidence
pub mod Job
pub mod Tasks
pub mod Invocations
pub mod Approvals
