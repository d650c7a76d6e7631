-- ===== src/Persistence/Redis/Budgets/Requests.antt =====
-- Sequences of calls of `RedisBudgetLedger` in src/research_platform/persistence/redis_state.py,
-- and the same calls of `BudgetLedger` in src/research_platform/mcp/breaker.py.
use secure_mcp_multi_agent_r.Base.{
  ℕ, ◌≡◌, ◌<◌, nat_eq, text_eq, String, List, [], ◌∷◌, Result, ok, err, Bool, true, false,
}
use secure_mcp_multi_agent_r.Domain.Job.{JobUsage, ResearchBudget}
use secure_mcp_multi_agent_r.Mcp.Budgets.{
  BudgetError, budget_exhausted, token, AgentCall, Ledger, with_agent_call, has_negative,
}
use secure_mcp_multi_agent_r.Mcp.Budgets as Memory
use secure_mcp_multi_agent_r.Persistence.Redis.{Server, answered, exact_below}
use secure_mcp_multi_agent_r.Persistence.Redis.Budgets as Shared

-- One call of a ledger, by any worker.
pub data LedgerRequest : Type 0 where
  reading : (job_id : ℕ) → LedgerRequest
  asking reserving checking : (job_id : ℕ) (budget : ResearchBudget) → LedgerRequest
  recording : (job_id : ℕ) (agent_call : AgentCall) → LedgerRequest

-- The figures of a usage that are counts: tool calls, agent calls, corrections, prompt and
-- completion tokens. Money and time are sums of decimal fractions, which the server rounds in its
-- own way.
abbrev pub Counts : Type 0
Counts = ℕ × ℕ × ℕ × ℕ × ℕ

abbrev pub counts_of : JobUsage → Counts
counts_of u =
    (u.tool_calls, u.agent_calls, u.schema_corrections, u.prompt_tokens, u.completion_tokens)

-- Each count is a number that Lua represents.
abbrev pub IsExact : Counts → Type 0
IsExact u =
    (u.0 < exact_below)
    × (u.1 < exact_below)
    × (u.2 < exact_below)
    × (u.3 < exact_below)
    × (u.4 < exact_below)

abbrev pub counts_in : Result BudgetError JobUsage → Result BudgetError Counts
counts_in (ok u) = ok (counts_of u)
counts_in (err e) = err e

-- Whether agent work is refused because the tokens are used up.
abbrev pub is_out_of_tokens : Result BudgetError (Unit {0}) → Bool
is_out_of_tokens (err (budget_exhausted job_id limit token)) = true
is_out_of_tokens _ = false

-- What is compared of a reply: the counts, and whether the tokens are used up.
pub data LedgerReply : Type 0 where
  read_as : Result BudgetError Counts → LedgerReply
  counted : Result BudgetError ℕ → LedgerReply
  checked : Bool → LedgerReply

-- The call of the ledger in the memory of one process.
unfoldable pub memory_step : Ledger → LedgerRequest → LedgerReply × Ledger
memory_step l (reading i) = (read_as (ok (counts_of (Memory.usage l i))), l)
memory_step l (asking i b) = (counted (ok (Memory.remaining_calls l i b)), l)
memory_step l (checking i b) = (checked (is_out_of_tokens (Memory.ensure_within l i b)), l)
memory_step l (reserving i b) =
    (counted (Memory.reserve_call l i b).0, (Memory.reserve_call l i b).1)
memory_step l (recording i c) =
    (read_as (counts_in (Memory.record_agent_call l i c).0), (Memory.record_agent_call l i c).1)

abbrev pub job_of : LedgerRequest → ℕ
job_of (reading i) = i
job_of (asking i b) = i
job_of (reserving i b) = i
job_of (checking i b) = i
job_of (recording i c) = i

-- No count that a call leaves behind is too large.
unfoldable pub StaysExact : Ledger → List LedgerRequest → Type 0
StaysExact l [] = Unit
StaysExact l (c ∷ cs) =
    IsExact (counts_of (Memory.usage (memory_step l c).1 (job_of c)))
    × StaysExact (memory_step l c).1 cs

unfoldable pub memory_replies : Ledger → List LedgerRequest → List LedgerReply
unfolding memory_step
memory_replies l [] = []
memory_replies l (c ∷ cs) = (memory_step l c).0 ∷ memory_replies (memory_step l c).1 cs

module _ (r : Server) (prefix : String) (show_id : ℕ → String) where
  -- The same call of the shared ledger, when the server answers.
  unfoldable pub shared_step : r.State → LedgerRequest → LedgerReply × r.State
  shared_step s (reading i) =
      (read_as (counts_in (Shared.usage r prefix show_id answered s i).0), s)
  shared_step s (asking i b) = (counted (Shared.remaining_calls r prefix show_id answered s i b), s)
  shared_step s (checking i b) =
      (checked (is_out_of_tokens (Shared.ensure_within r prefix show_id answered s i b)), s)
  shared_step s (reserving i b) =
      let (reply, s') = Shared.reserve_call r prefix show_id answered s i b in (counted reply, s')
  shared_step s (recording i c) =
      let (reply, s') = Shared.record_agent_call r prefix show_id answered s i c in
      (read_as (counts_in reply), s')

  unfoldable pub shared_replies : r.State → List LedgerRequest → List LedgerReply
  unfolding shared_step
  shared_replies s [] = []
  shared_replies s (c ∷ cs) = (shared_step s c).0 ∷ shared_replies (shared_step s c).1 cs

  -- The fields of every job hold the counts that the ledger holds.
  abbrev pub Agrees : r.State → Ledger → Type 0
  Agrees s l =
      (job_id : ℕ)
      → counts_of (Shared.usage_from r prefix show_id s (Shared.key r prefix show_id job_id))
        ≡ counts_of (Memory.usage l job_id)
