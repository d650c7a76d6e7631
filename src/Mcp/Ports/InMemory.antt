-- ===== src/Mcp/Ports/InMemory.antt =====
-- `BudgetLedger` and `CircuitBreaker` of src/research_platform/mcp/breaker.py as implementations of
-- the two protocols.
use secure_mcp_multi_agent_r.Base.{ℕ, suc, ◌≡◌, ◌≢◌, ◌≤◌, true, false, arith, nat_beq_iff, is_ok}
use secure_mcp_multi_agent_r.Domain.Job.{ResearchBudget}
use secure_mcp_multi_agent_r.Mcp.Budgets.{Ledger, reserve_call}
use secure_mcp_multi_agent_r.Mcp.Budgets.Reserving.{
  tool_calls, usage-reserve_call, is_ok-reserve_call,
}
use secure_mcp_multi_agent_r.Mcp.Breaker.{
  Config, Circuits, ensure_closed, record_success, record_failure,
}
use secure_mcp_multi_agent_r.Mcp.Ports.{Budgets, Breaker}

module _ (ledger : Ledger) (job_id : ℕ) (budget : ResearchBudget) where
  pub ledger_granted :
      is_ok (reserve_call ledger job_id budget).0 ≡ true
      → (tool_calls (reserve_call ledger job_id budget).1 job_id ≡ suc (tool_calls ledger job_id))
        × (suc (tool_calls ledger job_id) ≤ budget.max_tool_calls)
  ledger_granted h = ground (
    arith,
    is_ok-reserve_call ledger job_id budget,
    usage-reserve_call ledger job_id budget job_id,
  )

  pub ledger_refused :
      is_ok (reserve_call ledger job_id budget).0 ≡ false
      → tool_calls (reserve_call ledger job_id budget).1 job_id ≡ tool_calls ledger job_id
  ledger_refused h = ground (
    arith,
    is_ok-reserve_call ledger job_id budget,
    usage-reserve_call ledger job_id budget job_id,
  )

  pub ledger_others :
      (other : ℕ)
      → other ≢ job_id
      → tool_calls (reserve_call ledger job_id budget).1 other ≡ tool_calls ledger other
  ledger_others other ne =
      ground (arith, usage-reserve_call ledger job_id budget other, nat_beq_iff job_id other)

-- `BudgetLedger`
abbrev pub budget_ledger : Budgets
budget_ledger = record {
  State = Ledger;
  tool_calls = tool_calls;
  reserve_call = reserve_call;
  granted = ledger_granted;
  refused = ledger_refused;
  others = ledger_others;
}

-- `CircuitBreaker`
abbrev pub circuit_breaker : Config → Breaker
circuit_breaker cfg = record {
  State = Circuits;
  ensure_closed = ensure_closed cfg;
  record_success = record_success;
  record_failure = record_failure cfg;
}
