-- ===== src/Tests.antt =====
-- Small inputs, and the theorems at work on them.
mod Data
mod Domain
mod Planning
mod Mcp
mod Calls
mod Application
mod Web
mod Workflow
mod Redis
mod Agents
