-- ===== src/Application.antt =====
-- src/research_platform/application: what is stored of a job and what is published of it.
pub mod Findings
pub mod Jobs
