-- ===== src/Mcp/Gateway/Enforcement.antt =====
-- About `CapabilityGateway.invoke` of src/research_platform/mcp/gateway.py: the requests sent.
use secure_mcp_multi_agent_r.Base.{
  ◌≡◌, Bool, ◌&&◌, [], ◌∷◌, ◌++◌, arith, ok, err, is_ok, Result-cases, ◌∙◌, inl, inr, if◌then◌else◌,
}
use secure_mcp_multi_agent_r.Mcp.Registry.{Capability, resolve_for}
use secure_mcp_multi_agent_r.Mcp.Calls.{
  ExecutionRequest, Call, AuditContext, Outcome, not_found, Parts, State,
}
use secure_mcp_multi_agent_r.Mcp.Gateway.{
  context_of, decision_on, approved, execute, with_circuit, with_budget, authorized,
  invoke_unobserved, observe_outcome, invoke,
}

module _ (g : Parts) where
  -- The checks of one call on a resolved capability, said on their own: the policy allows it, an
  -- approval that is required authorizes it, the budget grants it, and the circuit is not open.
  unfoldable pub cleared : Call → Capability → State g → Bool
  cleared call capability s =
      (decision_on g call capability).allowed
      && approved g call capability
      && is_ok (g.budgets.reserve_call s.budgets call.job_id call.budget).0
      && is_ok (g.breaker.ensure_closed s.breaker capability.server call.times.breaker_at).0

  abbrev pub request_of : Call → Capability → ExecutionRequest
  request_of call capability = record {
    capability = capability;
    principal = call.principal;
    arguments = call.arguments;
  }

  sent-observe_outcome :
      (outcome : Outcome) (s : State g) → (observe_outcome g outcome s).sent ≡ s.sent
  unfolding observe_outcome
  sent-observe_outcome outcome s = ground arith

  sent-execute :
      (call : Call) (context : AuditContext) (s : State g)
      → (execute g call context s).1.sent
        ≡ s.sent ++ (call.job_id, request_of call context.capability) ∷ []
  unfolding execute
  sent-execute call context s = ground arith

  sent-with_circuit :
      (call : Call) (context : AuditContext) (s : State g)
      → (with_circuit g call context s).1.sent ≡ (
          if is_ok
            (g.breaker.ensure_closed s.breaker context.capability.server call.times.breaker_at).0
          then s.sent ++ (call.job_id, request_of call context.capability) ∷ []
          else s.sent)
  unfolding with_circuit
  sent-with_circuit call context s =
      let gate =
        g.breaker.ensure_closed s.breaker context.capability.server call.times.breaker_at in
      ground (arith, sent-execute call context (record s { breaker = gate.1 }))

  sent-with_budget :
      (call : Call) (context : AuditContext) (s : State g)
      → (with_budget g call context s).1.sent ≡ (
          if is_ok (g.budgets.reserve_call s.budgets call.job_id call.budget).0
            && is_ok
                (g.breaker.ensure_closed s.breaker context.capability.server
                  call.times.breaker_at).0
          then s.sent ++ (call.job_id, request_of call context.capability) ∷ []
          else s.sent)
  unfolding with_budget
  sent-with_budget call context s =
      let claim = g.budgets.reserve_call s.budgets call.job_id call.budget in
      ground (arith, sent-with_circuit call context (record s { budgets = claim.1 }))

  sent-authorized :
      (call : Call) (capability : Capability) (s : State g)
      → (authorized g call capability s).1.sent ≡ (
          if cleared call capability s
          then s.sent ++ (call.job_id, request_of call capability) ∷ []
          else s.sent)
  unfolding authorized cleared context_of
  sent-authorized call capability s = ground (
    arith,
    sent-with_budget call (context_of g call capability (decision_on g call capability)) s,
  )

  -- A request reaches the transport exactly if the caller may see the capability it names and all
  -- four checks pass; then it is that capability's request for that caller, and it is sent once.
  -- In every other case nothing is sent.
  pub sent-invoke :
      (call : Call) (s : State g)
      → (invoke g call s).1.sent
        ≡ (elim (resolve_for g.registry call.principal call.server call.capability_name) [
          | err e ↦ s.sent
          | ok capability ↦
              if cleared call capability s
              then s.sent ++ (call.job_id, request_of call capability) ∷ []
              else s.sent
        ])
  unfolding invoke invoke_unobserved
  sent-invoke call s =
      elim (Result-cases (resolve_for g.registry call.principal call.server call.capability_name)) [
        | inl (capability, e) ↦
            rw (e, invoke_unobserved)
              (sent-observe_outcome (authorized g call capability s).0
                  (authorized g call capability s).1
                ∙ sent-authorized call capability s)
        | inr (error, e) ↦ rw (e, invoke_unobserved) (sent-observe_outcome (not_found error) s)
      ]
