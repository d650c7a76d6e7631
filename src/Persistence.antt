-- ===== src/Persistence.antt =====
-- src/research_platform/persistence: the limits that every worker shares.
pub mod Redis
