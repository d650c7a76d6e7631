-- ===== src/Workflow.antt =====
-- src/research_platform/workflow: how a job is driven from its creation to a terminal status.
pub mod Ports
pub mod Outcomes
pub mod Orchestration
