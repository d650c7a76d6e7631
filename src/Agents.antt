-- ===== src/Agents.antt =====
-- src/research_platform/agents: what the agents hand in, and how it is checked.
pub mod Contracts
pub mod Provenance
pub mod Validation
pub mod Usage
