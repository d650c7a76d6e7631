-- ===== src/Persistence/Redis/Budgets/Refinement.antt =====
-- `RedisBudgetLedger` of src/research_platform/persistence/redis_state.py next to `BudgetLedger` of
-- src/research_platform/mcp/breaker.py, over sequences of calls.
use secure_mcp_multi_agent_r.Base.{
  ℕ, ◌+◌, ◌<◌, ◌-◌, ◌≡◌, refl, sym, ap, subst, ◌∙◌, inl, inr, arith, false, ◌==◌, nat_eq, text_eq,
  leb, beq_refl, Bool-cases, String, List, [], ◌∷◌, ok, nat_beq_iff, if◌then◌else◌,
}
use secure_mcp_multi_agent_r.Domain.Job.{JobUsage, ResearchBudget, total_tokens}
use secure_mcp_multi_agent_r.Mcp.Budgets.{
  BudgetError, AgentCall, Ledger, with_agent_call, has_negative, magnitude,
}
use secure_mcp_multi_agent_r.Mcp.Budgets as Memory
use secure_mcp_multi_agent_r.Mcp.Budgets.Reserving.{usage-reserve_call}
use secure_mcp_multi_agent_r.Mcp.Budgets.Accounting.{usage-record_agent_call}
use secure_mcp_multi_agent_r.Persistence.Redis.{
  Server, exact_below, answered, number_at, number_at-hincrby,
}
use secure_mcp_multi_agent_r.Persistence.Redis.Budgets as Shared
use secure_mcp_multi_agent_r.Persistence.Redis.Budgets.Writes.{
  counts-recorded_state, usage_from-claimed, usage_from-claimed_elsewhere,
  usage_from-recorded_elsewhere, key-apart,
}
use secure_mcp_multi_agent_r.Persistence.Redis.Budgets.Requests.{
  LedgerRequest, Counts, counts_of, counts_in, IsExact, StaysExact, job_of, is_out_of_tokens,
  reading, asking, reserving, checking, recording, read_as, counted, checked, memory_step,
  memory_replies, shared_step, shared_replies, Agrees,
}

tokens_in : Counts → ℕ
tokens_in u = u.3 + u.4

out_of_tokens-within :
    (i : ℕ) (b : ResearchBudget) (u : JobUsage)
    → is_out_of_tokens (Shared.within i b u) ≡ leb b.max_tokens (tokens_in (counts_of u))
unfolding Shared.within total_tokens tokens_in
out_of_tokens-within i b u = ground arith

out_of_tokens-ensure_within :
    (l : Ledger) (i : ℕ) (b : ResearchBudget)
    → is_out_of_tokens (Memory.ensure_within l i b)
      ≡ leb b.max_tokens (tokens_in (counts_of (Memory.usage l i)))
unfolding Memory.ensure_within total_tokens tokens_in
out_of_tokens-ensure_within l i b = ground arith

-- What an agent call adds to the counts.
with_call : AgentCall → Counts → Counts
with_call c (t, a, k, p, q) = (
  t,
  a + 1,
  k + magnitude c.corrections,
  p + magnitude c.prompt_tokens,
  q + magnitude c.completion_tokens,
)

counts-with_agent_call :
    (u : JobUsage) (c : AgentCall) → counts_of (with_agent_call u c) ≡ with_call c (counts_of u)
unfolding with_agent_call with_call
counts-with_agent_call u c = refl

module _ (r : Server) (prefix : String) (show_id : ℕ → String) where
  module _ (injective : (i j : ℕ) → show_id i ≡ show_id j → i ≡ j) (s : r.State) (l : Ledger)
      (agrees : Agrees r prefix show_id s l) where
    read_agrees :
        (i : ℕ)
        → counts_in (Shared.usage r prefix show_id answered s i).0
          ≡ ok (counts_of (Memory.usage l i))
    unfolding Shared.usage
    read_agrees i = ap (λ (u : Counts). ok u) (agrees i)

    claims_agree :
        (i : ℕ)
        → number_at r s (Shared.key r prefix show_id i) "tool_calls" ≡ (Memory.usage l i).tool_calls
    unfolding Shared.usage_from
    claims_agree i = ap (λ (u : Counts). u.0) (agrees i)

    asked_agrees :
        (i : ℕ) (b : ResearchBudget)
        → Shared.remaining_calls r prefix show_id answered s i b ≡ ok (Memory.remaining_calls l i b)
    unfolding Shared.remaining_calls Shared.usage Shared.usage_from Memory.remaining_calls
    asked_agrees i b = ap (λ (n : ℕ). ok (b.max_tool_calls - n)) (claims_agree i)

    check_agrees :
        (i : ℕ) (b : ResearchBudget)
        → is_out_of_tokens (Shared.ensure_within r prefix show_id answered s i b)
          ≡ is_out_of_tokens (Memory.ensure_within l i b)
    unfolding Shared.ensure_within Shared.usage
    check_agrees i b =
        let k = Shared.key r prefix show_id i in
        out_of_tokens-within i b (Shared.usage_from r prefix show_id s k)
        ∙ (ap (λ (u : Counts). leb b.max_tokens (tokens_in u)) (agrees i)
            ∙ sym (out_of_tokens-ensure_within l i b))

    claimed_one :
        (i : ℕ)
        → (Memory.usage l i).tool_calls + 1 < exact_below
        → number_at r
            (r.hincrby s (Shared.key r prefix show_id i) "tool_calls" 1)
            (Shared.key r prefix show_id i)
            "tool_calls"
          ≡ (Memory.usage l i).tool_calls + 1
    claimed_one i small =
        let k = Shared.key r prefix show_id i in
        let here = claims_agree i in
        ground (
          arith,
          number_at-hincrby r s k "tool_calls" 1 k "tool_calls",
          beq_refl k,
          r.parse-int_sum (r.hget s k "tool_calls") 1 (rw here small),
          here,
        )

    -- A granted reservation leaves one call more.
    small_claim :
        (i : ℕ) (b : ResearchBudget)
        → leb b.max_tool_calls (Memory.usage l i).tool_calls ≡ false
        → IsExact (counts_of (Memory.usage (Memory.reserve_call l i b).1 i))
        → (Memory.usage l i).tool_calls + 1 < exact_below
    small_claim i b e small =
        let written : Memory.usage (Memory.reserve_call l i b).1 i
            ≡ record (Memory.usage l i) { tool_calls = (Memory.usage l i).tool_calls + 1 } =
          rw (usage-reserve_call l i b i, e, beq_refl i) refl in
        (subst (λ (u : JobUsage). IsExact (counts_of u)) written small).0

    small_record :
        (i : ℕ) (c : AgentCall)
        → has_negative c ≡ false
        → IsExact (counts_of (Memory.usage (Memory.record_agent_call l i c).1 i))
        → IsExact (counts_of (with_agent_call (Memory.usage l i) c))
    small_record i c e small =
        let written : Memory.usage (Memory.record_agent_call l i c).1 i
            ≡ with_agent_call (Memory.usage l i) c =
          rw (usage-record_agent_call l i c i, e, beq_refl i) refl in
        subst (λ (u : JobUsage). IsExact (counts_of u)) written small

    reserve_agrees :
        (i : ℕ) (b : ResearchBudget)
        → IsExact (counts_of (Memory.usage (Memory.reserve_call l i b).1 i))
        → (Shared.reserve_call r prefix show_id answered s i b).0 ≡ (Memory.reserve_call l i b).0
    unfolding Shared.reserve_call Shared.reserve_script Shared.claim_of Memory.reserve_call
    reserve_agrees i b small =
        elim (Bool-cases (leb b.max_tool_calls (Memory.usage l i).tool_calls)) [
          | inl e ↦ rw (claims_agree i, e, Shared.reserve_call, Memory.reserve_call) refl
          | inr e ↦
              rw
                (
                  claims_agree i,
                  e,
                  claimed_one i (small_claim i b e small),
                  Shared.reserve_call,
                  Memory.reserve_call,
                )
                refl
        ]

    -- The counts behind an agent call.
    recorded_counts :
        (i : ℕ) (c : AgentCall)
        → IsExact (counts_of (with_agent_call (Memory.usage l i) c))
        → counts_of (
            Shared.usage_from r prefix show_id
              (Shared.recorded_state r prefix show_id
                (Shared.key r prefix show_id i)
                c
                Shared.usage_ttl
                s)
              (Shared.key r prefix show_id i))
          ≡ counts_of (with_agent_call (Memory.usage l i) c)
    recorded_counts i c small =
        let u = Shared.usage_from r prefix show_id s (Shared.key r prefix show_id i) in
        let same : counts_of (with_agent_call u c)
            ≡ counts_of (with_agent_call (Memory.usage l i) c) =
          counts-with_agent_call u c
          ∙ (ap (with_call c) (agrees i) ∙ sym (counts-with_agent_call (Memory.usage l i) c)) in
        counts-recorded_state r prefix show_id (Shared.key r prefix show_id i) c s
          (subst IsExact (sym same) small)
        ∙ same

    record_agrees :
        (i : ℕ) (c : AgentCall)
        → IsExact (counts_of (Memory.usage (Memory.record_agent_call l i c).1 i))
        → counts_in (Shared.record_agent_call r prefix show_id answered s i c).0
          ≡ counts_in (Memory.record_agent_call l i c).0
    unfolding Shared.record_agent_call Shared.record_script Memory.record_agent_call
    record_agrees i c small = elim (Bool-cases (has_negative c)) [
      | inl e ↦ rw (e, Shared.record_agent_call, Memory.record_agent_call) refl
      | inr e ↦
          rw (e, Shared.record_agent_call, Memory.record_agent_call)
            (ap (λ (u : Counts). ok u) (recorded_counts i c (small_record i c e small)))
    ]

    reply_agrees :
        (c : LedgerRequest)
        → IsExact (counts_of (Memory.usage (memory_step l c).1 (job_of c)))
        → (shared_step r prefix show_id s c).0 ≡ (memory_step l c).0
    unfolding shared_step memory_step
    reply_agrees (reading i) small = ap (λ x. read_as x) (read_agrees i)
    reply_agrees (asking i b) small = ap (λ x. counted x) (asked_agrees i b)
    reply_agrees (checking i b) small = ap (λ x. checked x) (check_agrees i b)
    reply_agrees (reserving i b) small = ap (λ x. counted x) (reserve_agrees i b small)
    reply_agrees (recording i c) small = ap (λ x. read_as x) (record_agrees i c small)

    -- A write to the fields of one job, and to no other.
    Agrees-write :
        (i : ℕ) (s' : r.State) (l' : Ledger) (u : JobUsage)
        → counts_of (Shared.usage_from r prefix show_id s' (Shared.key r prefix show_id i))
          ≡ counts_of u
        → ((other : String)
            → (Shared.key r prefix show_id i == other) ≡ false
            → Shared.usage_from r prefix show_id s' other
              ≡ Shared.usage_from r prefix show_id s other)
        → ((j : ℕ) → Memory.usage l' j ≡ (if i == j then u else Memory.usage l j))
        → Agrees r prefix show_id s' l'
    Agrees-write i s' l' u own others written j = elim (Bool-cases (i == j)) [
      | inl e ↦
          let same = (nat_beq_iff i j).0 e in
          rw (written j, e)
            (subst
              (λ k.
                counts_of (Shared.usage_from r prefix show_id s' (Shared.key r prefix show_id k))
                ≡ counts_of u)
              same own)
      | inr e ↦
          let apart =
            key-apart r prefix show_id injective i j (λ same. ground (arith, nat_beq_iff i j)) in
          rw (written j, e) (ap counts_of (others (Shared.key r prefix show_id j) apart) ∙ agrees j)
    ]

    reserve_state :
        (i : ℕ) (b : ResearchBudget)
        → (Shared.reserve_call r prefix show_id answered s i b).1 ≡ (
            if leb b.max_tool_calls (Memory.usage l i).tool_calls
            then s
            else r.expire
                (r.hincrby s (Shared.key r prefix show_id i) "tool_calls" 1)
                (Shared.key r prefix show_id i)
                Shared.usage_ttl)
    unfolding Shared.reserve_call Shared.reserve_script
    reserve_state i b = elim (Bool-cases (leb b.max_tool_calls (Memory.usage l i).tool_calls)) [
      | inl e ↦ rw (claims_agree i, e, Shared.reserve_call) refl
      | inr e ↦ rw (claims_agree i, e, Shared.reserve_call) refl
    ]

    Agrees-reserving :
        (i : ℕ) (b : ResearchBudget)
        → IsExact (counts_of (Memory.usage (Memory.reserve_call l i b).1 i))
        → Agrees r prefix show_id
            (Shared.reserve_call r prefix show_id answered s i b).1
            (Memory.reserve_call l i b).1
    unfolding Shared.usage_from
    Agrees-reserving i b small =
        elim (Bool-cases (leb b.max_tool_calls (Memory.usage l i).tool_calls)) [
          | inl e ↦ rw (reserve_state i b, e) (λ j. rw (usage-reserve_call l i b j, e) (agrees j))
          | inr e ↦
              let k = Shared.key r prefix show_id i in
              let claimed : JobUsage = record (Memory.usage l i) {
                tool_calls = (Memory.usage l i).tool_calls + 1;
              } in
              rw (reserve_state i b, e)
                (Agrees-write i (r.expire (r.hincrby s k "tool_calls" 1) k Shared.usage_ttl)
                  (Memory.reserve_call l i b).1 claimed
                  (ap counts_of (
                      usage_from-claimed r prefix show_id k s
                        (rw (claims_agree i) (small_claim i b e small)))
                    ∙ ap (λ (u : Counts). (u.0 + 1, u.1, u.2, u.3, u.4)) (agrees i))
                  (usage_from-claimed_elsewhere r prefix show_id k s)
                  (λ j. rw (usage-reserve_call l i b j, e) refl))
        ]

    record_state :
        (i : ℕ) (c : AgentCall)
        → (Shared.record_agent_call r prefix show_id answered s i c).1 ≡ (
            if has_negative c
            then s
            else Shared.recorded_state r prefix show_id
                (Shared.key r prefix show_id i)
                c
                Shared.usage_ttl
                s)
    unfolding Shared.record_agent_call Shared.record_script
    record_state i c = elim (Bool-cases (has_negative c)) [
      | inl e ↦ rw (e, Shared.record_agent_call) refl
      | inr e ↦ rw (e, Shared.record_agent_call) refl
    ]

    Agrees-recording :
        (i : ℕ) (c : AgentCall)
        → IsExact (counts_of (Memory.usage (Memory.record_agent_call l i c).1 i))
        → Agrees r prefix show_id
            (Shared.record_agent_call r prefix show_id answered s i c).1
            (Memory.record_agent_call l i c).1
    Agrees-recording i c small = elim (Bool-cases (has_negative c)) [
      | inl e ↦ rw (record_state i c, e) (λ j. rw (usage-record_agent_call l i c j, e) (agrees j))
      | inr e ↦
          let k = Shared.key r prefix show_id i in
          rw (record_state i c, e)
            (Agrees-write i (Shared.recorded_state r prefix show_id k c Shared.usage_ttl s)
              (Memory.record_agent_call l i c).1 (with_agent_call (Memory.usage l i) c)
              (recorded_counts i c (small_record i c e small))
              (usage_from-recorded_elsewhere r prefix show_id k c s)
              (λ j. rw (usage-record_agent_call l i c j, e) refl))
    ]

    step-Agrees :
        (c : LedgerRequest)
        → IsExact (counts_of (Memory.usage (memory_step l c).1 (job_of c)))
        → Agrees r prefix show_id (shared_step r prefix show_id s c).1 (memory_step l c).1
    unfolding shared_step memory_step
    step-Agrees (reading i) small = agrees
    step-Agrees (asking i b) small = agrees
    step-Agrees (checking i b) small = agrees
    step-Agrees (reserving i b) small = Agrees-reserving i b small
    step-Agrees (recording i c) small = Agrees-recording i c small

-- The shared ledger answers every sequence of calls, by however many workers, as the ledger in the
-- memory of one process does, when the server answers and the two hold the same counts at first:
-- the same claims of tool calls are granted and refused, the same counts of calls, corrections and
-- tokens are read, and agent work is refused for want of tokens at the same calls. Money and
-- working time are not compared. Identifiers are written apart, and the counts stay below 2 ^ 53.
pub shared_replies-refines :
    (r : Server) (prefix : String) (show_id : ℕ → String)
    (injective : (i j : ℕ) → show_id i ≡ show_id j → i ≡ j) (s : r.State) (l : Ledger)
    (calls : List LedgerRequest)
    → Agrees r prefix show_id s l
    → StaysExact l calls
    → shared_replies r prefix show_id s calls ≡ memory_replies l calls
unfolding shared_replies memory_replies StaysExact
shared_replies-refines r prefix show_id injective s l [] agrees small = refl
shared_replies-refines r prefix show_id injective s l (c ∷ cs) agrees (now, later) =
    let first = reply_agrees r prefix show_id injective s l agrees c now in
    let rest =
      shared_replies-refines r prefix show_id injective (shared_step r prefix show_id s c).1
        (memory_step l c).1 cs (step-Agrees r prefix show_id injective s l agrees c now) later in
    cc
