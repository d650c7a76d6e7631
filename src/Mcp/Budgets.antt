-- ===== src/Mcp/Budgets.antt =====
-- The budget ledger of src/research_platform/mcp/breaker.py. A recorded amount may be negative,
-- and is then refused, so it is an integer; money is in millionths of a dollar and working time in
-- microseconds, added exactly.
pub mod Reserving
pub mod Accounting
use secure_mcp_multi_agent_r.Base.{
  ℕ, zero, suc, ◌+◌, ◌-◌, ◌*◌, Bool, true, false, ◌||◌, leb, ltb, List, [], ◌∷◌, Dict, get, put,
  get_or, has_key, nat_eq, Result, ok, err, refuse_if, ◌>>=◌, ◌>>◌, if◌then◌else◌, none, some,
}
use secure_mcp_multi_agent_r.Domain.Job.{ResearchBudget, JobUsage, no_usage, total_tokens}

pub data BudgetKind : Type 0 where
  tool_call token usd_cost second_runtime : BudgetKind

-- `BudgetExhausted`, `LimitStoreUnavailable` and the `ValueError` of the recording methods.
pub data BudgetError : Type 0 where
  budget_exhausted : (job_id limit : ℕ) (kind : BudgetKind) → BudgetError
  limit_store_unavailable negative_usage : BudgetError

abbrev pub Ledger : Type 0
Ledger = Dict ℕ JobUsage

unfoldable pub usage : Ledger → ℕ → JobUsage
usage ledger job_id = get_or ledger job_id no_usage

unfoldable pub remaining_calls : Ledger → ℕ → ResearchBudget → ℕ
unfolding usage
remaining_calls ledger job_id budget = budget.max_tool_calls - (usage ledger job_id).tool_calls

-- `self._usage.setdefault(job_id, JobUsage())`
unfoldable pub set_default : Ledger → ℕ → Ledger
set_default ledger job_id = if has_key ledger job_id then ledger else put ledger job_id no_usage

unfoldable pub reserve_call : Ledger → ℕ → ResearchBudget → Result BudgetError ℕ × Ledger
unfolding usage set_default
reserve_call ledger job_id budget =
    let recorded = usage ledger job_id in
    if leb budget.max_tool_calls recorded.tool_calls
    then (err (budget_exhausted job_id budget.max_tool_calls tool_call), set_default ledger job_id)
    else (
      ok (recorded.tool_calls + 1),
      put ledger job_id (record recorded { tool_calls = recorded.tool_calls + 1 }),
    )

abbrev pub microseconds : ℕ → ℕ
microseconds seconds = seconds * 1_000_000

unfoldable pub ensure_within : Ledger → ℕ → ResearchBudget → Result BudgetError (Unit {0})
unfolding usage total_tokens
ensure_within ledger job_id budget = do
  let spent = usage ledger job_id
  refuse_if (leb budget.max_tokens (total_tokens spent))
      (budget_exhausted job_id budget.max_tokens token)
  refuse_if (leb budget.max_cost_usd spent.cost_usd)
      (budget_exhausted job_id budget.max_cost_usd usd_cost)
  refuse_if (leb (microseconds budget.max_runtime_seconds) spent.active_seconds)
      (budget_exhausted job_id budget.max_runtime_seconds second_runtime)

-- A signed amount: `pos n` is n and `negsuc n` is -(n + 1).
pub data ℤ : Type 0 where
  pos : ℕ → ℤ
  negsuc : ℕ → ℤ

abbrev pub is_negative : ℤ → Bool
is_negative (pos n) = false
is_negative (negsuc n) = true

abbrev pub magnitude : ℤ → ℕ
magnitude (pos n) = n
magnitude (negsuc n) = suc n

-- The keyword arguments of `record_agent_call`.
pub record AgentCall : Type 0 where
  pub prompt_tokens : ℤ
  pub completion_tokens : ℤ
  pub cost_usd : ℤ
  pub active_seconds : ℤ
  pub corrections : ℤ

-- `min(...) < 0`
unfoldable pub has_negative : AgentCall → Bool
has_negative c =
    is_negative c.prompt_tokens
    || is_negative c.completion_tokens
    || is_negative c.cost_usd
    || is_negative c.active_seconds
    || is_negative c.corrections

unfoldable pub with_agent_call : JobUsage → AgentCall → JobUsage
with_agent_call u c = record u {
  agent_calls = u.agent_calls + 1;
  schema_corrections = u.schema_corrections + magnitude c.corrections;
  prompt_tokens = u.prompt_tokens + magnitude c.prompt_tokens;
  completion_tokens = u.completion_tokens + magnitude c.completion_tokens;
  cost_usd = u.cost_usd + magnitude c.cost_usd;
  active_seconds = u.active_seconds + magnitude c.active_seconds;
}

unfoldable pub record_agent_call : Ledger → ℕ → AgentCall → Result BudgetError JobUsage × Ledger
unfolding usage has_negative with_agent_call
record_agent_call ledger job_id call =
    if has_negative call
    then (err negative_usage, ledger)
    else let recorded = with_agent_call (usage ledger job_id) call in
      (ok recorded, put ledger job_id recorded)

unfoldable pub record_cost : Ledger → ℕ → ℤ → Result BudgetError (Unit {0}) × Ledger
unfolding usage
record_cost ledger job_id cost =
    if is_negative cost
    then (err negative_usage, ledger)
    else let recorded = usage ledger job_id in
      (ok tt, put ledger job_id (record recorded { cost_usd = recorded.cost_usd + magnitude cost }))
