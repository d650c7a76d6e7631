-- ===== src/Mcp.antt =====
-- src/research_platform/mcp: the governed path from an agent to a tool.
pub mod Registry
pub mod Policy
pub mod Breaker
pub mod Budgets
pub mod RateLimiter
pub mod WebSources
pub mod SqlQueries
pub mod Sanitizer
pub mod Ports
pub mod Calls
pub mod Gateway
