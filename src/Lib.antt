-- ===== src/Lib.antt =====
-- The core of the secure MCP multi-agent research platform, src/research_platform.
--
-- The platform runs research jobs with agents that act only through MCP servers. A job moves
-- through a status machine and is split into tasks, which run in an order that respects their
-- dependencies. Each tool call of an agent goes through the gateway: the registry resolves the
-- name for the principal, the policy decides, an approval is checked where the capability needs
-- one, the budget ledger claims the call, the circuit breaker of the server is asked, the executor
-- sends the request, the sanitizer cleans the answer, and one audit record is kept. The job
-- service stores jobs, evidence, audit records and findings by tenant; findings join the analyst's
-- proposals with the critic's verdicts. The orchestration drives one job from its plan through
-- research, analysis, review and report to a terminal status, and calls the job service and the
-- agents on the way; what an agent hands in is parsed, checked and, if rejected, corrected a
-- bounded number of times.
--
-- The files, with the sources they model:
--   Base          shared names: tests, lists, results for exceptions, dictionaries, sorting, texts.
--   Domain/Status, Domain/Access, Domain/Job
--                 src/research_platform/domain/models.py: JobStatus, AccessClass, ResearchBudget,
--                 JobUsage, ResearchJob.
--   Domain/Evidence
--                 the same file: evidence, findings and their validators.
--   Domain/Tasks  src/research_platform/domain/tasks.py: ResearchTask, resolve_execution_order.
--   Domain/Invocations
--                 src/research_platform/domain/invocations.py: redaction, ToolInvocation.
--   Domain/Approvals
--                 src/research_platform/domain/approvals.py: ApprovalRequest.
--   Application/Findings
--                 src/research_platform/application/publication.py: derive_findings, with
--                 ProposedFinding and ClaimVerdict of src/research_platform/agents/contracts.py.
--   Application/Jobs
--                 src/research_platform/application/jobs.py: InMemoryJobRepository as `Store`,
--                 ResearchJobService as functions on it; `add_job`, `get_job`, `list_jobs`,
--                 `update_job` and `trail` are the repository's add, get, list, update and
--                 list_invocations.
--   Agents/Contracts
--                 src/research_platform/agents/contracts.py: the plan, the submission, the analysis,
--                 the review and the report, each record with the function that validates it.
--   Agents/Provenance
--                 src/research_platform/agents/provenance.py: EvidenceLedger, verify_claims.
--   Agents/Validation
--                 src/research_platform/agents/validation.py: parse_agent_output,
--                 BoundedSchemaCorrection as `resolve`.
--   Agents/Usage  src/research_platform/agents/usage.py: AgentCallStats.
--   Workflow/Ports
--                 the protocol JobsPort and OrchestrationActivities of
--                 src/research_platform/workflow/orchestration.py as records; Workflow/Ports/Service
--                 fills the port with AsyncJobs of src/research_platform/application/jobs.py.
--   Workflow/Outcomes, Workflow/Orchestration
--                 src/research_platform/workflow/orchestration.py: `run_research_job`; `pipeline` is
--                 `_run_research_job`, `review_loop` its loop, `collect` is `_collect_evidence` and
--                 `fail` is `_fail`.
--   Persistence/Redis
--                 src/research_platform/persistence/redis_state.py: the Lua scripts of
--                 RedisBudgetLedger and its methods, over the commands of a Redis server.
--   Identity      src/research_platform/identity.py: Principal.
--   Mcp/Registry  src/research_platform/mcp/registry.py: Capability, CapabilityRegistry.
--   Mcp/Policy    src/research_platform/mcp/policy.py: RegistryPolicyEngine.
--   Mcp/Breaker, Mcp/Budgets
--                 src/research_platform/mcp/breaker.py: CircuitBreaker and BudgetLedger.
--   Mcp/Sanitizer src/research_platform/mcp/sanitizer.py: sanitize_result.
--   Mcp/RateLimiter, Mcp/WebSources
--                 src/research_platform/mcp/servers/web_boundary.py: SlidingWindowRateLimiter, and
--                 DomainPolicy with normalize_source_url.
--   Mcp/SqlQueries
--                 src/research_platform/mcp/servers/sql_boundary.py: parse_analytical_query.
--   Mcp/Ports     the protocols Budgets and Breaker of mcp/breaker.py as records of operations and
--                 laws; Mcp/Ports/InMemory fills them with the two classes of that file.
--   Mcp/Calls, Mcp/Gateway
--                 src/research_platform/mcp/gateway.py: CapabilityGateway. `invoke` is the method of
--                 that name, `invoke_unobserved` to `execute` are the stages of `_invoke` and
--                 `_execute`, `observe` is `_observe` with `_record`. Mcp/Gateway/Endings says on its
--                 own how a call may end, and Mcp/Gateway/Audit that it ends so.
--   Tests         small inputs, and the theorems at work on them.
--
-- How the program is modelled. Methods that change an object return the new state beside their
-- result; exceptions are constructors of error types, without their texts. Identifiers and times
-- are numbers, times in microseconds; money is in millionths of a dollar and working time in
-- microseconds, added exactly in the ledger in memory, where the source adds floating-point
-- numbers; the ledger in Redis adds them by a command whose result is left open. Sets are lists, a
-- dictionary is an association list in the order of insertion. Readings of the clock and fresh
-- identifiers are arguments. The methods that hold a lock throughout are one step each.
--
-- Parameters stand for code outside the repository: `str.lower`, the SHA-256 digest of canonical
-- JSON, `urlsplit` with the port it reads, `str.strip`, `ip_address`, the Unicode category "Cf", the injection patterns,
-- the policy engine, the executor with its answer to the n-th request, the audit sink, the agents
-- and the reviewer with their answer to the n-th call, the JSON parser and the models behind it,
-- the citations that a report's text contains, the patterns for the tables of a query, and the
-- commands of the Redis server with what their documentation says of the fields of a hash. A
-- script runs as a whole.
--
-- Bounds: `rounds` in Domain/Tasks, the `while` loop of resolve_execution_order, runs on fuel, one
-- unit for each task; each round places a task or raises, so that suffices. `out_of_fuel` stands
-- for running out. `reject_cycles` in Agents/Contracts, the loop over a plan's tasks, is bounded
-- in the same way. `review_loop` counts the review cycles that are left and `resolve_loop` the
-- attempts. The counts in the Redis server are Lua's numbers, exact below 2 ^ 53, and the comparison
-- of the two ledgers asks for counts below that.
--
-- Not modelled: spans, metrics of a run and log lines; the HTTP interface, the database, Temporal,
-- the container and web clients, which are I/O; that a key of the Redis server expires; the shared
-- circuit breaker and rate limiter, the boundaries of the other servers, the manifest and the
-- rendering of a report, the agents' deterministic checks and the evaluation.
pub mod Agents
pub mod Application
pub mod Base
pub mod Domain
pub mod Identity
pub mod Mcp
pub mod Persistence
pub mod Tests
pub mod Workflow
