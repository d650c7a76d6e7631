-- ===== src/Persistence/Redis/Budgets/Writes.antt =====
-- What the scripts of `RedisBudgetLedger` in src/research_platform/persistence/redis_state.py leave
-- in the fields.
use secure_mcp_multi_agent_r.Base.{
  ℕ, ◌+◌, ◌<◌, ◌≡◌, ◌≢◌, false, ◌==◌, nat_eq, text_eq, beq_refl, String, append_cancel, Bool-cases,
  inl, inr, arith,
}
use Prim.Native.String.{◌++◌ as ◌<>◌}
use secure_mcp_multi_agent_r.Mcp.Budgets.{AgentCall, magnitude, with_agent_call}
use secure_mcp_multi_agent_r.Persistence.Redis.{
  Server, number_at, number_at-hincrby, number_at-hincrbyfloat, number_at-expire, exact_below,
}
use secure_mcp_multi_agent_r.Persistence.Redis.Budgets.{key, usage_ttl, usage_from, recorded_state}
use secure_mcp_multi_agent_r.Persistence.Redis.Budgets.Requests.{counts_of, IsExact}

module _ (r : Server) where
  number_at-expire_usage :
      (s : r.State) (k other name : String)
      → number_at r (r.expire s k usage_ttl) other name ≡ number_at r s other name
  number_at-expire_usage s k other name = number_at-expire r s k usage_ttl other name (omega arith)

  -- The sum that stands in a field behind HINCRBY.
  summed :
      (s : r.State) (k field : String) (n : ℕ)
      → number_at r s k field + n < exact_below
      → r.parse (r.int_sum (r.hget s k field) n) ≡ number_at r s k field + n
  summed s k field n small = r.parse-int_sum (r.hget s k field) n small

  pub counts-recorded_state :
      (prefix : String) (show_id : ℕ → String) (k : String) (c : AgentCall) (s : r.State)
      → IsExact (counts_of (with_agent_call (usage_from r prefix show_id s k) c))
      → counts_of (usage_from r prefix show_id (recorded_state r prefix show_id k c usage_ttl s) k)
        ≡ counts_of (with_agent_call (usage_from r prefix show_id s k) c)
  unfolding usage_from recorded_state with_agent_call
  counts-recorded_state prefix show_id k c s (_, calls, corrections, prompt, completion) = simp (
    number_at-expire_usage,
    number_at-hincrby r,
    number_at-hincrbyfloat r,
    r.hget-hincrby,
    beq_refl k,
    summed s k "agent_calls" 1 calls,
    summed s k "schema_corrections" (magnitude c.corrections) corrections,
    summed s k "prompt_tokens" (magnitude c.prompt_tokens) prompt,
    summed s k "completion_tokens" (magnitude c.completion_tokens) completion,
  )

  -- The claim of a call, for its own key and for the others.
  pub usage_from-claimed :
      (prefix : String) (show_id : ℕ → String) (k : String) (s : r.State)
      → number_at r s k "tool_calls" + 1 < exact_below
      → usage_from r prefix show_id (r.expire (r.hincrby s k "tool_calls" 1) k usage_ttl) k
        ≡ record (usage_from r prefix show_id s k) { tool_calls = number_at r s k "tool_calls" + 1 }
  unfolding usage_from
  usage_from-claimed prefix show_id k s small =
      simp
        (number_at-expire_usage, number_at-hincrby r, beq_refl k, summed s k "tool_calls" 1 small)

  pub usage_from-claimed_elsewhere :
      (prefix : String) (show_id : ℕ → String) (k : String) (s : r.State) (other : String)
      → (k == other) ≡ false
      → usage_from r prefix show_id (r.expire (r.hincrby s k "tool_calls" 1) k usage_ttl) other
        ≡ usage_from r prefix show_id s other
  unfolding usage_from
  usage_from-claimed_elsewhere prefix show_id k s other e =
      simp (number_at-expire_usage, number_at-hincrby r, e)

  pub usage_from-recorded_elsewhere :
      (prefix : String) (show_id : ℕ → String) (k : String) (c : AgentCall) (s : r.State)
      (other : String)
      → (k == other) ≡ false
      → usage_from r prefix show_id (recorded_state r prefix show_id k c usage_ttl s) other
        ≡ usage_from r prefix show_id s other
  unfolding usage_from recorded_state
  usage_from-recorded_elsewhere prefix show_id k c s other e =
      simp (number_at-expire_usage, number_at-hincrby r, number_at-hincrbyfloat r, e)

  -- Different jobs have different keys.
  pub key-apart :
      (prefix : String) (show_id : ℕ → String)
      → ((i j : ℕ) → show_id i ≡ show_id j → i ≡ j)
      → (i j : ℕ) → i ≢ j
      → (key r prefix show_id i == key r prefix show_id j) ≡ false
  unfolding key
  key-apart prefix show_id injective i j ne =
      elim (Bool-cases (key r prefix show_id i == key r prefix show_id j)) [
        | inr e ↦ e
        | inl e ↦
            let same = (text_eq.beq_iff (key r prefix show_id i) (key r prefix show_id j)).0 e in
            absurd (
              ne (
                injective i j (
                  append_cancel ":budget:" (show_id i) (show_id j) (
                    append_cancel prefix (":budget:" <> show_id i) (":budget:" <> show_id j)
                      same))))
      ]
