-- ===== src/Mcp/Budgets/Accounting.antt =====
-- About `BudgetLedger` of src/research_platform/mcp/breaker.py: sequences of calls, and
-- `ensure_within`.
use secure_mcp_multi_agent_r.Base.{
  ℕ, ◌+◌, ◌≡◌, ◌≤◌, ◌<◌, ◌↔◌, arith, nat_eq, nat_beq_iff, ok, List, [], ◌∷◌, if◌then◌else◌, ◌==◌,
}
use secure_mcp_multi_agent_r.Domain.Job.{ResearchBudget, JobUsage, total_tokens}
use secure_mcp_multi_agent_r.Mcp.Budgets.{
  Ledger, ℤ, AgentCall, usage, reserve_call, ensure_within, microseconds, magnitude, has_negative,
  with_agent_call, record_agent_call, record_cost,
}
use secure_mcp_multi_agent_r.Mcp.Budgets.Reserving.{tool_calls, usage-put, usage-reserve_call}

pub usage-record_agent_call :
    (ledger : Ledger) (job_id : ℕ) (call : AgentCall) (k : ℕ)
    → usage (record_agent_call ledger job_id call).1 k ≡ (
        if has_negative call
        then usage ledger k
        else if job_id == k
        then with_agent_call (usage ledger job_id) call
        else usage ledger k)
unfolding record_agent_call
usage-record_agent_call ledger job_id call k =
    ground (arith, usage-put ledger job_id k (with_agent_call (usage ledger job_id) call))

-- New agent work is let through exactly while tokens, money and working time are all below their
-- limits.
pub ensure_within_iff :
    (ledger : Ledger) (job_id : ℕ) (budget : ResearchBudget)
    → (ensure_within ledger job_id budget ≡ ok tt) ↔ (
        (total_tokens (usage ledger job_id) < budget.max_tokens)
        × ((usage ledger job_id).cost_usd < budget.max_cost_usd)
        × ((usage ledger job_id).active_seconds < microseconds budget.max_runtime_seconds))
unfolding ensure_within
ensure_within_iff ledger job_id budget = ground arith

-- One call on the ledger: a reservation, a finished agent call, or a cost.
pub data LedgerCall : Type 0 where
  reserve : (job_id : ℕ) → LedgerCall
  finish : (job_id : ℕ) (call : AgentCall) → LedgerCall
  charge : (job_id : ℕ) (cost : ℤ) → LedgerCall

module _ (budget_of : ℕ → ResearchBudget) where
  unfoldable pub after_call : Ledger → LedgerCall → Ledger
  after_call ledger (reserve job_id) = (reserve_call ledger job_id (budget_of job_id)).1
  after_call ledger (finish job_id call) = (record_agent_call ledger job_id call).1
  after_call ledger (charge job_id cost) = (record_cost ledger job_id cost).1

  unfoldable pub after_calls : Ledger → List LedgerCall → Ledger
  after_calls ledger [] = ledger
  after_calls ledger (c ∷ cs) = after_calls (after_call ledger c) cs

  -- No figure is smaller in the second usage.
  abbrev pub Grows : JobUsage → JobUsage → Type 0
  Grows u v =
      (u.tool_calls ≤ v.tool_calls)
      × (u.agent_calls ≤ v.agent_calls)
      × (u.schema_corrections ≤ v.schema_corrections)
      × (u.prompt_tokens ≤ v.prompt_tokens)
      × (u.completion_tokens ≤ v.completion_tokens)
      × (u.cost_usd ≤ v.cost_usd)
      × (u.active_seconds ≤ v.active_seconds)

  after_call-step :
      (ledger : Ledger) (c : LedgerCall) (k : ℕ)
      → tool_calls ledger k ≤ (budget_of k).max_tool_calls
      → (tool_calls (after_call ledger c) k ≤ (budget_of k).max_tool_calls)
        × Grows (usage ledger k) (usage (after_call ledger c) k)
  unfolding after_call total_tokens with_agent_call record_cost
  after_call-step ledger (reserve j) k h =
      ground (arith, usage-reserve_call ledger j (budget_of j) k, nat_beq_iff j k)
  after_call-step ledger (finish j call) k h =
      ground (arith, usage-record_agent_call ledger j call k, nat_beq_iff j k)
  after_call-step ledger (charge j cost) k h =
      let u = usage ledger j in
      ground (
        arith,
        usage-put ledger j k (record u { cost_usd = u.cost_usd + magnitude cost }),
        nat_beq_iff j k,
      )

  -- Whatever calls are made for whatever jobs, in whatever order, a job that is within its budget
  -- never has more tool calls than its budget allows, and none of the seven figures of its usage
  -- falls: tool calls, agent calls, corrections, the two token counts, money and working time.
  pub ledger_within_budget :
      (ledger : Ledger) (cs : List LedgerCall) (k : ℕ)
      → tool_calls ledger k ≤ (budget_of k).max_tool_calls
      → (tool_calls (after_calls ledger cs) k ≤ (budget_of k).max_tool_calls)
        × Grows (usage ledger k) (usage (after_calls ledger cs) k)
  unfolding after_calls
  ledger_within_budget ledger [] k h = omega arith
  ledger_within_budget ledger (c ∷ cs) k h =
      let (bound, grows) = after_call-step ledger c k h in
      let (final, more) = ledger_within_budget (after_call ledger c) cs k bound in omega arith
