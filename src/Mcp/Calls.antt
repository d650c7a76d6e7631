-- ===== src/Mcp/Calls.antt =====
-- The types around src/research_platform/mcp/gateway.py: what a call brings with it, how it can
-- end, and what the gateway is built from. The policy, the executor behind the transport, the
-- digest and the text functions are parameters; each reading of the clock is a field of `Times`.
use secure_mcp_multi_agent_r.Base.{ℕ, ◌-◌, ◌/◌, Bool, List, String, Option}
use secure_mcp_multi_agent_r.Domain.Job.{ResearchBudget}
use secure_mcp_multi_agent_r.Domain.Invocations.{
  Arguments, ErrorClass, ToolInvocation, InvocationError,
}
use secure_mcp_multi_agent_r.Domain.Approvals.{ApprovalRequest}
use secure_mcp_multi_agent_r.Identity.{Principal}
use secure_mcp_multi_agent_r.Mcp.Registry.{Capability, Registry, RegistryError}
use secure_mcp_multi_agent_r.Mcp.Policy.{AuthorizationRequest, PolicyDecision}
use secure_mcp_multi_agent_r.Mcp.Sanitizer.{Text, UntrustedContent, InjectionFlag}
use secure_mcp_multi_agent_r.Mcp.Ports.{Budgets, Breaker}

pub record ExecutionRequest : Type 0 where
  pub capability : Capability
  pub principal : Principal
  pub arguments : Arguments

-- What the executor does with a request: a result, an `UpstreamError`, or any other exception.
pub data Answer : Type 0 where
  answered : Text → Answer
  upstream_error : ErrorClass → Answer
  unforeseen : Answer

pub record Times : Type 0 where
  pub approval_at : ℕ
  pub breaker_at : ℕ
  pub started_at : ℕ
  pub failure_at : ℕ
  pub reopened_at : ℕ
  pub finished_at : ℕ
  pub recorded_at : ℕ

-- The arguments of `invoke`, with the identifier and the times that the call will draw.
pub record Call : Type 0 where
  pub principal : Principal
  pub job_id : ℕ
  pub task_id : ℕ
  pub server : String
  pub capability_name : String
  pub arguments : Arguments
  pub budget : ResearchBudget
  pub approval : Option ApprovalRequest
  pub fresh_id : ℕ
  pub times : Times

pub record AuditContext : Type 0 where
  pub job_id : ℕ
  pub task_id : ℕ
  pub tenant_id : String
  pub capability : Capability
  pub sanitized_arguments : Arguments
  pub argument_digest : String
  pub policy_version : String

-- `CapabilityDenied` and `CapabilityFailed` carry the record; the other exceptions leave none.
pub data Outcome : Type 0 where
  completed : ToolInvocation → UntrustedContent → Outcome
  capability_denied : ToolInvocation → Outcome
  capability_failed : ToolInvocation → Outcome
  not_found : RegistryError → Outcome
  invalid_record : InvocationError → Outcome
  crashed : Outcome

-- `_elapsed_ms`, of times in microseconds.
unfoldable pub elapsed_ms : (started finished : ℕ) → ℕ
elapsed_ms started finished = (finished - started) / 1_000

-- What the gateway is built from.
pub record Parts : Type 1 where
  pub lower : String → String
  pub digest : Arguments → String
  pub is_format : ℕ → Bool
  pub matches : InjectionFlag → Text → Bool
  pub registry : Registry
  pub policy : AuthorizationRequest → PolicyDecision
  -- The answer to the n-th request that reaches the transport.
  pub executor : (n : ℕ) → ExecutionRequest → Answer
  pub budgets : Budgets
  pub breaker : Breaker
  -- Whether a sink is configured and stores the record it is handed.
  pub sink : ToolInvocation → Bool

-- What the gateway and its surroundings have seen: the two stores, the requests that reached the
-- transport with the job each was made for, the records observed and stored, and two counters.
pub record State (g : Parts) : Type 0 where
  pub budgets : g.budgets.State
  pub breaker : g.breaker.State
  pub sent : List (ℕ × ExecutionRequest)
  pub observed : List ToolInvocation
  pub stored : List ToolInvocation
  pub permission_denials : ℕ
  pub injection_flags : ℕ
