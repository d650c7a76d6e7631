-- ===== src/Mcp/Ports.antt =====
-- The protocols `Budgets` and `Breaker` of src/research_platform/mcp/breaker.py, as the gateway
-- relies on them. A call may also raise `LimitStoreUnavailable`, where the store is shared.
pub mod InMemory
use secure_mcp_multi_agent_r.Base.{ℕ, suc, ◌≡◌, ◌≢◌, ◌≤◌, Bool, true, false, String, Result, is_ok}
use secure_mcp_multi_agent_r.Domain.Job.{ResearchBudget}
use secure_mcp_multi_agent_r.Mcp.Budgets.{BudgetError}
use secure_mcp_multi_agent_r.Mcp.Breaker.{BreakerError}

-- A ledger counts the tool calls of each job: a granted call is counted and within the budget, a
-- refused one is not counted, and no call is counted for another job.
pub record Budgets : Type 1 where
  pub State : Type 0
  pub tool_calls : State → ℕ → ℕ
  pub reserve_call : State → ℕ → ResearchBudget → Result BudgetError ℕ × State
  pub granted :
      (s : State) (job_id : ℕ) (budget : ResearchBudget)
      → is_ok (reserve_call s job_id budget).0 ≡ true
      → (tool_calls (reserve_call s job_id budget).1 job_id ≡ suc (tool_calls s job_id))
        × (suc (tool_calls s job_id) ≤ budget.max_tool_calls)
  pub refused :
      (s : State) (job_id : ℕ) (budget : ResearchBudget)
      → is_ok (reserve_call s job_id budget).0 ≡ false
      → tool_calls (reserve_call s job_id budget).1 job_id ≡ tool_calls s job_id
  pub others :
      (s : State) (job_id : ℕ) (budget : ResearchBudget) (other : ℕ)
      → other ≢ job_id
      → tool_calls (reserve_call s job_id budget).1 other ≡ tool_calls s other

pub record Breaker : Type 1 where
  pub State : Type 0
  pub ensure_closed : State → String → (now : ℕ) → Result BreakerError (Unit {0}) × State
  pub record_success : State → String → State
  pub record_failure : State → String → (now later : ℕ) → Result BreakerError (Unit {0}) × State
