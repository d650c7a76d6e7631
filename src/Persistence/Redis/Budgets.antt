-- ===== src/Persistence/Redis/Budgets.antt =====
-- `RedisBudgetLedger` of src/research_platform/persistence/redis_state.py, script by script. Which
-- call is answered is an argument; how a UUID is written is a parameter.
pub mod Writes
pub mod Requests
pub mod Refinement
use secure_mcp_multi_agent_r.Base.{
  ℕ, ◌+◌, ◌-◌, ◌≡◌, Bool, true, false, ◌==◌, nat_eq, text_eq, leb, String, Option, none, some,
  Result, ok, err, refuse_if, ◌>>=◌, ◌>>◌, if◌then◌else◌,
}
use Prim.Native.String.{◌++◌ as ◌<>◌}
use secure_mcp_multi_agent_r.Domain.Job.{ResearchBudget, JobUsage, total_tokens}
use secure_mcp_multi_agent_r.Mcp.Budgets.{
  BudgetError, budget_exhausted, limit_store_unavailable, negative_usage, tool_call, token,
  usd_cost, second_runtime, microseconds, ℤ, pos, negsuc, is_negative, magnitude, AgentCall,
  has_negative,
}
use secure_mcp_multi_agent_r.Persistence.Redis.{Server, Delivery, call, number_at}

-- `int(USAGE_TTL.total_seconds())`
abbrev pub usage_ttl : ℕ
usage_ttl = 2_592_000

-- The three checks of `ensure_within`.
unfoldable pub within : ℕ → ResearchBudget → JobUsage → Result BudgetError (Unit {0})
unfolding total_tokens
within job_id budget spent = do
  refuse_if (leb budget.max_tokens (total_tokens spent))
      (budget_exhausted job_id budget.max_tokens token)
  refuse_if (leb budget.max_cost_usd spent.cost_usd)
      (budget_exhausted job_id budget.max_cost_usd usd_cost)
  refuse_if (leb (microseconds budget.max_runtime_seconds) spent.active_seconds)
      (budget_exhausted job_id budget.max_runtime_seconds second_runtime)

-- What the caller makes of the script's answer.
unfoldable pub claim_of : ℕ → ResearchBudget → ℤ → Result BudgetError ℕ
claim_of job_id budget claimed =
    if is_negative claimed
    then err (budget_exhausted job_id budget.max_tool_calls tool_call)
    else ok (magnitude claimed)

module _ (r : Server) (prefix : String) (show_id : ℕ → String) where
  unfoldable pub key : ℕ → String
  key job_id = prefix <> (":budget:" <> show_id job_id)

  -- `_usage_from`, of the fields that are stored under a key.
  unfoldable pub usage_from : r.State → String → JobUsage
  usage_from s k = record {
    tool_calls = number_at r s k "tool_calls";
    agent_calls = number_at r s k "agent_calls";
    schema_corrections = number_at r s k "schema_corrections";
    prompt_tokens = number_at r s k "prompt_tokens";
    completion_tokens = number_at r s k "completion_tokens";
    cost_usd = number_at r s k "cost_usd";
    active_seconds = number_at r s k "active_seconds";
  }

  -- `_RESERVE_CALL`
  unfoldable pub reserve_script : String → (max_tool_calls ttl : ℕ) → r.State → ℤ × r.State
  reserve_script k max_tool_calls ttl s =
      if leb max_tool_calls (number_at r s k "tool_calls")
      then (negsuc 0, s)
      else let claimed = r.hincrby s k "tool_calls" 1 in
        (pos (number_at r claimed k "tool_calls"), r.expire claimed k ttl)

  -- The writes of `_RECORD_AGENT_CALL`.
  unfoldable pub recorded_state : String → AgentCall → (ttl : ℕ) → r.State → r.State
  recorded_state k c ttl s0 =
      let s1 = r.hincrby s0 k "agent_calls" 1 in
      let s2 = r.hincrby s1 k "schema_corrections" (magnitude c.corrections) in
      let s3 = r.hincrby s2 k "prompt_tokens" (magnitude c.prompt_tokens) in
      let s4 = r.hincrby s3 k "completion_tokens" (magnitude c.completion_tokens) in
      let s5 = r.hincrbyfloat s4 k "cost_usd" (magnitude c.cost_usd) in
      let s6 = r.hincrbyfloat s5 k "active_seconds" (magnitude c.active_seconds) in
      r.expire s6 k ttl

  -- `_RECORD_AGENT_CALL`, with `_usage_from` of what it returns.
  unfoldable pub record_script : String → AgentCall → (ttl : ℕ) → r.State → JobUsage × r.State
  unfolding recorded_state usage_from
  record_script k c ttl s = (usage_from (recorded_state k c ttl s) k, recorded_state k c ttl s)

  unfoldable pub usage : Delivery → r.State → ℕ → Result BudgetError JobUsage × r.State
  unfolding key usage_from
  usage d s job_id = call r limit_store_unavailable d (λ s'. (usage_from s' (key job_id), s')) s

  unfoldable pub remaining_calls : Delivery → r.State → ℕ → ResearchBudget → Result BudgetError ℕ
  unfolding usage
  remaining_calls d s job_id budget =
      (usage d s job_id).0 >>= λ u. ok (budget.max_tool_calls - u.tool_calls)

  unfoldable pub reserve_call :
      Delivery → r.State → ℕ → ResearchBudget → Result BudgetError ℕ × r.State
  unfolding key reserve_script claim_of
  reserve_call d s job_id budget =
      let (reply, s') =
        call r limit_store_unavailable d
          (reserve_script (key job_id) budget.max_tool_calls usage_ttl) s in
      (reply >>= claim_of job_id budget, s')

  unfoldable pub ensure_within :
      Delivery → r.State → ℕ → ResearchBudget → Result BudgetError (Unit {0})
  unfolding usage within
  ensure_within d s job_id budget = (usage d s job_id).0 >>= within job_id budget

  unfoldable pub record_agent_call :
      Delivery → r.State → ℕ → AgentCall → Result BudgetError JobUsage × r.State
  unfolding key record_script has_negative
  record_agent_call d s job_id c =
      if has_negative c
      then (err negative_usage, s)
      else call r limit_store_unavailable d (record_script (key job_id) c usage_ttl) s
