-- ===== src/Domain/Job.antt =====
-- `ResearchBudget`, `JobUsage` and `ResearchJob` of src/research_platform/domain/models.py.
-- Identifiers are numbers, times are microseconds, money is in millionths of a dollar.
pub mod Progress
use secure_mcp_multi_agent_r.Base.{
  ℕ, ◌+◌, Bool, true, ◌&&◌, Option, none, some, List, leb, ltb, String, take_chars, length_within,
  Result, ok, err, guard, ◌>>=◌, ◌>>◌, ◌==◌, text_eq, if◌then◌else◌,
}
use secure_mcp_multi_agent_r.Domain.Status.{JobStatus, may_move}
use secure_mcp_multi_agent_r.Domain.Access.{AccessClass}

pub record ResearchBudget : Type 0 where
  pub max_tool_calls : ℕ
  pub max_tokens : ℕ
  pub max_runtime_seconds : ℕ
  pub max_cost_usd : ℕ

-- The `Field` bounds of `ResearchBudget`.
unfoldable pub budget_in_bounds : ResearchBudget → Bool
budget_in_bounds b =
    leb 1 b.max_tool_calls
    && leb b.max_tool_calls 10_000
    && leb 1_000 b.max_tokens
    && leb b.max_tokens 1_000_000_000
    && leb 30 b.max_runtime_seconds
    && leb b.max_runtime_seconds 86_400
    && ltb 0 b.max_cost_usd
    && leb b.max_cost_usd 10_000_000_000

pub record JobUsage : Type 0 where
  pub tool_calls : ℕ
  pub agent_calls : ℕ
  pub schema_corrections : ℕ
  pub prompt_tokens : ℕ
  pub completion_tokens : ℕ
  pub cost_usd : ℕ
  pub active_seconds : ℕ

abbrev pub no_usage : JobUsage
no_usage = record {
  tool_calls = 0;
  agent_calls = 0;
  schema_corrections = 0;
  prompt_tokens = 0;
  completion_tokens = 0;
  cost_usd = 0;
  active_seconds = 0;
}

unfoldable pub total_tokens : JobUsage → ℕ
total_tokens u = u.prompt_tokens + u.completion_tokens

pub record ResearchJob : Type 0 where
  pub id : ℕ
  pub tenant_id : String
  pub requester_id : String
  pub question : String
  pub constraints : List String
  pub source_requirements : List String
  pub budget : ResearchBudget
  pub clearance : AccessClass
  pub usage : JobUsage
  pub status : JobStatus
  pub status_detail : Option String
  pub workflow_id : Option String
  pub workflow_run_id : Option String
  pub created_at : ℕ
  pub updated_at : ℕ

abbrev pub status_detail_limit : ℕ
status_detail_limit = 1_000

pub data InvalidStateTransition : Type 0 where
  invalid_state_transition : (current target : JobStatus) → InvalidStateTransition

-- `detail[:STATUS_DETAIL_LIMIT] if detail else None`
unfoldable pub kept_detail : Option String → Option String
kept_detail none = none
kept_detail (some detail) =
    if detail == "" then none else some (take_chars status_detail_limit detail)

unfoldable pub kept_usage : Option JobUsage → JobUsage → JobUsage
kept_usage none old = old
kept_usage (some usage) old = usage

unfoldable pub transition_to :
    ResearchJob
    → JobStatus
    → Option String
    → Option JobUsage
    → ℕ
    → Result InvalidStateTransition ResearchJob
unfolding kept_detail kept_usage
transition_to job target detail usage now =
    guard (may_move job.status target) (invalid_state_transition job.status target)
    >> ok (record job {
      status = target;
      status_detail = kept_detail detail;
      usage = kept_usage usage job.usage;
      updated_at = now;
    })

unfoldable pub with_checkpoint : ResearchJob → String → String → ℕ → ResearchJob
with_checkpoint job workflow_id workflow_run_id now = record job {
  workflow_id = some workflow_id;
  workflow_run_id = some workflow_run_id;
  updated_at = now;
}

-- The `Field` bounds that constructing a `ResearchJob` checks.
unfoldable pub job_in_bounds : ResearchJob → Bool
job_in_bounds job =
    length_within 1 100 job.tenant_id
    && length_within 1 200 job.requester_id
    && length_within 1 4_000 job.question
    && budget_in_bounds job.budget
