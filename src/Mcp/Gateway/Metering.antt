-- ===== src/Mcp/Gateway/Metering.antt =====
-- About `CapabilityGateway.invoke` of src/research_platform/mcp/gateway.py: the budget of a job
-- over many calls.
use secure_mcp_multi_agent_r.Base.{
  ℕ, suc, ◌≡◌, refl, ◌≢◌, ◌≤◌, ◌∙◌, ◌&&◌, List, [], ◌∷◌, ◌++◌, arith, nat_eq, nat_beq_iff, ◌==◌,
  All, ok, err, Bool-cases, Result-cases, ◌⊎◌, inl, inr, if◌then◌else◌,
}
use secure_mcp_multi_agent_r.Mcp.Registry.{Capability, resolve_for}
use secure_mcp_multi_agent_r.Mcp.Calls.{
  ExecutionRequest, Call, AuditContext, Outcome, not_found, Parts, State,
}
use secure_mcp_multi_agent_r.Mcp.Gateway.{
  context_of, decision_on, approved, execute, with_circuit, with_budget, authorized,
  invoke_unobserved, observe_outcome, invoke,
}
use secure_mcp_multi_agent_r.Mcp.Gateway.Enforcement.{cleared, request_of, sent-invoke}

-- How many of the requests sent were made for this job.
abbrev pub sent_for : ℕ → List (ℕ × ExecutionRequest) → ℕ
sent_for job_id [] = 0
sent_for job_id ((j, r) ∷ rest) = let n = sent_for job_id rest in if j == job_id then suc n else n

sent_for-append :
    (k : ℕ) (l : List (ℕ × ExecutionRequest)) (j : ℕ) (r : ExecutionRequest)
    → sent_for k (l ++ (j, r) ∷ []) ≡ (if j == k then suc (sent_for k l) else sent_for k l)
sent_for-append k [] j r = refl
sent_for-append k ((i, q) ∷ l) j r = ground (arith, sent_for-append k l j r)

module _ (g : Parts) where
  budgets-observe_outcome :
      (outcome : Outcome) (s : State g) → (observe_outcome g outcome s).budgets ≡ s.budgets
  unfolding observe_outcome
  budgets-observe_outcome outcome s = ground arith

  budgets-execute :
      (call : Call) (context : AuditContext) (s : State g)
      → (execute g call context s).1.budgets ≡ s.budgets
  unfolding execute
  budgets-execute call context s = ground arith

  budgets-with_circuit :
      (call : Call) (context : AuditContext) (s : State g)
      → (with_circuit g call context s).1.budgets ≡ s.budgets
  unfolding with_circuit
  budgets-with_circuit call context s =
      let gate =
        g.breaker.ensure_closed s.breaker context.capability.server call.times.breaker_at in
      ground (arith, budgets-execute call context (record s { breaker = gate.1 }))

  budgets-authorized :
      (call : Call) (capability : Capability) (s : State g)
      → (authorized g call capability s).1.budgets ≡ (
          if (decision_on g call capability).allowed && approved g call capability
          then (g.budgets.reserve_call s.budgets call.job_id call.budget).1
          else s.budgets)
  unfolding authorized with_budget
  budgets-authorized call capability s =
      let claim = g.budgets.reserve_call s.budgets call.job_id call.budget in
      let context = context_of g call capability (decision_on g call capability) in
      ground (arith, budgets-with_circuit call context (record s { budgets = claim.1 }))

  -- What one call does to the ledger: a reservation if policy and approval let it through.
  pub budgets-invoke :
      (call : Call) (s : State g)
      → (invoke g call s).1.budgets
        ≡ (elim (resolve_for g.registry call.principal call.server call.capability_name) [
          | err e ↦ s.budgets
          | ok capability ↦
              if (decision_on g call capability).allowed && approved g call capability
              then (g.budgets.reserve_call s.budgets call.job_id call.budget).1
              else s.budgets
        ])
  unfolding invoke invoke_unobserved
  budgets-invoke call s =
      elim (Result-cases (resolve_for g.registry call.principal call.server call.capability_name)) [
        | inl (capability, e) ↦
            rw (e, invoke_unobserved)
              (budgets-observe_outcome (authorized g call capability s).0
                  (authorized g call capability s).1
                ∙ budgets-authorized call capability s)
        | inr (error, e) ↦ rw (e, invoke_unobserved) (budgets-observe_outcome (not_found error) s)
      ]

  -- A job's requests are all counted, and the count is within the limit.
  abbrev pub IsMetered : ℕ → ℕ → State g → Type 0
  IsMetered job_id limit s =
      (sent_for job_id s.sent ≤ g.budgets.tool_calls s.budgets job_id)
      × (g.budgets.tool_calls s.budgets job_id ≤ limit)

  -- The calls for this job come with a budget within the limit.
  abbrev pub WithinLimit : ℕ → ℕ → Call → Type 0
  WithinLimit job_id limit call = (call.job_id ≢ job_id) ⊎ (call.budget.max_tool_calls ≤ limit)

  -- Whichever checks pass, a request that is sent has been counted.
  cleared-IsMetered :
      (job_id limit : ℕ) (call : Call) (capability : Capability) (s : State g)
      → WithinLimit job_id limit call
      → IsMetered job_id limit s
      → (sent : List (ℕ × ExecutionRequest)) (budgets : g.budgets.State)
      → sent ≡ (
          if cleared g call capability s
          then s.sent ++ (call.job_id, request_of g call capability) ∷ []
          else s.sent)
      → budgets ≡ (
          if (decision_on g call capability).allowed && approved g call capability
          then (g.budgets.reserve_call s.budgets call.job_id call.budget).1
          else s.budgets)
      → (sent_for job_id sent ≤ g.budgets.tool_calls budgets job_id)
        × (g.budgets.tool_calls budgets job_id ≤ limit)
  unfolding cleared
  cleared-IsMetered job_id limit call capability s fits h sent budgets e f =
      elim (Bool-cases (call.job_id == job_id)) [
        | inl same ↦
            let here : call.job_id ≡ job_id = (nat_beq_iff call.job_id job_id).0 same in
            ground (
              arith,
              here,
              sent_for-append job_id s.sent call.job_id (request_of g call capability),
              g.budgets.granted s.budgets call.job_id call.budget,
              g.budgets.refused s.budgets call.job_id call.budget,
            )
        | inr other ↦ ground (
          arith,
          nat_beq_iff call.job_id job_id,
          sent_for-append job_id s.sent call.job_id (request_of g call capability),
          g.budgets.others s.budgets call.job_id call.budget job_id,
        )
      ]

  invoke-IsMetered :
      (job_id limit : ℕ) (call : Call) (s : State g)
      → WithinLimit job_id limit call
      → IsMetered job_id limit s
      → IsMetered job_id limit (invoke g call s).1
  invoke-IsMetered job_id limit call s fits h =
      elim (Result-cases (resolve_for g.registry call.principal call.server call.capability_name)) [
        | inl (capability, e) ↦
            cleared-IsMetered job_id limit call capability s fits h (invoke g call s).1.sent
              (invoke g call s).1.budgets (rw e at (sent-invoke g call s))
              (rw e at (budgets-invoke call s))
        | inr (error, e) ↦
            let same_sent = rw e at (sent-invoke g call s) in
            let same_budgets = rw e at (budgets-invoke call s) in rw (same_sent, same_budgets) h
      ]

  -- Calls one after another, of any jobs and callers.
  unfoldable pub invoke_all : List Call → State g → State g
  invoke_all [] s = s
  invoke_all (call ∷ calls) s = invoke_all calls (invoke g call s).1

  -- Start in a state in which a job's sent requests are all counted, and the count is at most
  -- `limit`. However many calls are made, by whom and for which jobs, if those for this job all
  -- come with a budget of at most `limit` tool calls, it never has more requests sent than that.
  pub invoke_all-IsMetered :
      (job_id limit : ℕ) (calls : List Call) (s : State g)
      → All (WithinLimit job_id limit) calls
      → IsMetered job_id limit s
      → sent_for job_id (invoke_all calls s).sent ≤ limit
  unfolding invoke_all
  invoke_all-IsMetered job_id limit [] s fits h = omega arith
  invoke_all-IsMetered job_id limit (call ∷ calls) s fits h =
      invoke_all-IsMetered job_id limit calls (invoke g call s).1 fits.1
        (invoke-IsMetered job_id limit call s fits.0 h)
