-- ===== src/Mcp/Budgets/Reserving.antt =====
-- About `BudgetLedger.reserve_call` of src/research_platform/mcp/breaker.py.
use secure_mcp_multi_agent_r.Base.{
  ℕ, zero, suc, ◌+◌, ◌-◌, ◌≡◌, refl, ◌≢◌, true, false, leb, min, arith, put, get-put, get_or-put,
  get_or, nat_eq, nat_beq_iff, is_ok, ◌==◌, if◌then◌else◌,
}
use secure_mcp_multi_agent_r.Domain.Job.{ResearchBudget, JobUsage, no_usage}
use secure_mcp_multi_agent_r.Mcp.Budgets.{Ledger, usage, set_default, reserve_call}

abbrev pub tool_calls : Ledger → ℕ → ℕ
tool_calls ledger job_id = (usage ledger job_id).tool_calls

pub usage-put :
    (ledger : Ledger) (j k : ℕ) (u : JobUsage)
    → usage (put ledger j u) k ≡ (if j == k then u else usage ledger k)
unfolding usage
usage-put ledger j k u = get_or-put ledger j k u no_usage

-- Remembering an unused job changes no figure.
pub usage-set_default :
    (ledger : Ledger) (j k : ℕ) → usage (set_default ledger j) k ≡ usage ledger k
unfolding usage set_default get_or
usage-set_default ledger j k = ground (arith, get-put ledger j k no_usage, nat_beq_iff j k)

module _ (ledger : Ledger) (job_id : ℕ) (budget : ResearchBudget) where
  pub usage-reserve_call :
      (k : ℕ)
      → usage (reserve_call ledger job_id budget).1 k ≡ (
          if leb budget.max_tool_calls (tool_calls ledger job_id)
          then usage ledger k
          else if job_id == k
          then record (usage ledger job_id) { tool_calls = tool_calls ledger job_id + 1 }
          else usage ledger k)
  unfolding reserve_call
  usage-reserve_call k =
      let counted = record (usage ledger job_id) { tool_calls = tool_calls ledger job_id + 1 } in
      ground (arith, usage-set_default ledger job_id k, usage-put ledger job_id k counted)

  pub is_ok-reserve_call :
      is_ok (reserve_call ledger job_id budget).0
      ≡ (if leb budget.max_tool_calls (tool_calls ledger job_id) then false else true)
  unfolding reserve_call
  is_ok-reserve_call = ground arith

-- `n` calls for one job, and how many of them were granted.
unfoldable pub reserve_many : ℕ → Ledger → ℕ → ResearchBudget → ℕ × Ledger
reserve_many zero ledger job_id budget = (0, ledger)
reserve_many (suc n) ledger job_id budget =
    let (answer, ledger') = reserve_call ledger job_id budget in
    let (granted, final) = reserve_many n ledger' job_id budget in
    ((if is_ok answer then granted + 1 else granted), final)

-- Of any number of attempts exactly as many are granted as the budget still allows, each is
-- counted, and the figures of other jobs stay as they were.
pub reserve_many-grants :
    (n : ℕ) (ledger : Ledger) (job_id : ℕ) (budget : ResearchBudget) (other : ℕ)
    → other ≢ job_id
    → ((reserve_many n ledger job_id budget).0
        ≡ min n (budget.max_tool_calls - tool_calls ledger job_id))
      × (tool_calls (reserve_many n ledger job_id budget).1 job_id
          ≡ tool_calls ledger job_id + (reserve_many n ledger job_id budget).0)
      × (usage (reserve_many n ledger job_id budget).1 other ≡ usage ledger other)
unfolding reserve_many
reserve_many-grants zero ledger job_id budget other ne = (omega arith, omega arith, refl)
reserve_many-grants (suc n) ledger job_id budget other ne =
    let ledger' = (reserve_call ledger job_id budget).1 in
    let rest = reserve_many-grants n ledger' job_id budget other ne in
    let here = usage-reserve_call ledger job_id budget job_id in
    let there = usage-reserve_call ledger job_id budget other in
    ground (arith, rest, here, there, is_ok-reserve_call ledger job_id budget)
