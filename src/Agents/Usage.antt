-- ===== src/Agents/Usage.antt =====
-- src/research_platform/agents/usage.py: what one agent call cost. Prices and costs are in
-- millionths of a dollar, so a price in dollars per million tokens is one of a million tokens.
use secure_mcp_multi_agent_r.Base.{ℕ, ◌+◌, ◌-◌, Option, none, some}
use secure_mcp_multi_agent_r.Mcp.Budgets.{ℤ, pos, negsuc}

-- What a provider reports under one name: an integer, or a number cut to an integer, or any value
-- that is not a number, such as a truth value.
pub data Reported : Type 0 where
  number : ℤ → Reported
  malformed : Reported

pub record AgentCallStats : Type 0 where
  pub attempts : ℕ
  pub prompt_tokens : ℕ
  pub completion_tokens : ℕ

-- `max(0, int(value))`
unfoldable pub count_ : Reported → ℕ
count_ malformed = 0
count_ (number (pos n)) = n
count_ (number (negsuc n)) = 0

-- The figures of a response under `prompt_tokens` and `completion_tokens`.
abbrev pub Report : Type 0
Report = Reported × Reported

unfoldable pub observe_usage : AgentCallStats → Option Report → AgentCallStats
unfolding count_
observe_usage s none = record s { attempts = s.attempts + 1 }
observe_usage s (some (prompt, completion)) = record {
  attempts = s.attempts + 1;
  prompt_tokens = s.prompt_tokens + count_ prompt;
  completion_tokens = s.completion_tokens + count_ completion;
}

unfoldable pub corrections : AgentCallStats → ℕ
corrections s = s.attempts - 1
