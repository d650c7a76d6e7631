-- ===== src/Mcp/Gateway/Recording.antt =====
-- About `CapabilityGateway.invoke` of src/research_platform/mcp/gateway.py: the records it
-- hands on.
use secure_mcp_multi_agent_r.Base.{
  ◌≡◌, refl, ◌+◌, Bool, List, [], ◌∷◌, ◌++◌, arith, Result-cases, ℕ, inl, inr, if◌then◌else◌,
}
use mathlib.Core.List.{append-nil}
use secure_mcp_multi_agent_r.Domain.Invocations.{ToolInvocation}
use secure_mcp_multi_agent_r.Mcp.Registry.{Capability, resolve_for}
use secure_mcp_multi_agent_r.Mcp.Calls.{
  Call, AuditContext, Outcome, completed, capability_denied, capability_failed, not_found,
  invalid_record, crashed, Parts, State,
}
use secure_mcp_multi_agent_r.Mcp.Gateway.{
  context_of, decision_on, execute, with_circuit, with_budget, authorized, invoke_unobserved,
  observe, observe_outcome, is_denied, invoke,
}

-- The record that an outcome carries, if any.
abbrev pub record_in : Outcome → List ToolInvocation
record_in (completed i content) = i ∷ []
record_in (capability_denied i) = i ∷ []
record_in (capability_failed i) = i ∷ []
record_in (not_found e) = []
record_in (invalid_record e) = []
record_in crashed = []

-- The refusals among the outcome's records.
abbrev pub denials_in : Outcome → ℕ
denials_in (completed i content) = if is_denied i.outcome then 1 else 0
denials_in (capability_denied i) = if is_denied i.outcome then 1 else 0
denials_in (capability_failed i) = if is_denied i.outcome then 1 else 0
denials_in _ = 0

-- The records that a sink stores.
abbrev pub stored_of : (ToolInvocation → Bool) → List ToolInvocation → List ToolInvocation
stored_of sink [] = []
stored_of sink (i ∷ rest) =
    let others = stored_of sink rest in if sink i then i ∷ others else others

module _ (g : Parts) where
  -- What the state of the records is after a call that ended in this way.
  abbrev pub IsRecorded : Outcome → State g → State g → Type 0
  IsRecorded outcome s s' =
      (s'.observed ≡ s.observed ++ record_in outcome)
      × (s'.stored ≡ s.stored ++ stored_of g.sink (record_in outcome))
      × (s'.permission_denials ≡ s.permission_denials + denials_in outcome)

  -- Nothing that a call does before its outcome touches the records.
  abbrev SameRecords : State g → State g → Type 0
  SameRecords s s' =
      (s'.observed ≡ s.observed)
      × (s'.stored ≡ s.stored)
      × (s'.permission_denials ≡ s.permission_denials)

  execute-SameRecords :
      (call : Call) (context : AuditContext) (s : State g)
      → SameRecords s (execute g call context s).1
  unfolding execute
  execute-SameRecords call context s = ground arith

  with_circuit-SameRecords :
      (call : Call) (context : AuditContext) (s : State g)
      → SameRecords s (with_circuit g call context s).1
  unfolding with_circuit
  with_circuit-SameRecords call context s =
      let gate =
        g.breaker.ensure_closed s.breaker context.capability.server call.times.breaker_at in
      ground (arith, execute-SameRecords call context (record s { breaker = gate.1 }))

  authorized-SameRecords :
      (call : Call) (capability : Capability) (s : State g)
      → SameRecords s (authorized g call capability s).1
  unfolding authorized with_budget
  authorized-SameRecords call capability s =
      let claim = g.budgets.reserve_call s.budgets call.job_id call.budget in
      let context = context_of g call capability (decision_on g call capability) in
      ground (arith, with_circuit-SameRecords call context (record s { budgets = claim.1 }))

  observe_outcome-IsRecorded :
      (outcome : Outcome) (s s' : State g)
      → SameRecords s s'
      → IsRecorded outcome s (observe_outcome g outcome s')
  unfolding observe_outcome observe
  observe_outcome-IsRecorded (completed i content) s s' h = ground (arith, append-nil s.stored)
  observe_outcome-IsRecorded (capability_denied i) s s' h = ground (arith, append-nil s.stored)
  observe_outcome-IsRecorded (capability_failed i) s s' h = ground (arith, append-nil s.stored)
  observe_outcome-IsRecorded (not_found e) s s' h =
      ground (arith, append-nil s.observed, append-nil s.stored)
  observe_outcome-IsRecorded (invalid_record e) s s' h =
      ground (arith, append-nil s.observed, append-nil s.stored)
  observe_outcome-IsRecorded crashed s s' h =
      ground (arith, append-nil s.observed, append-nil s.stored)

  -- A call adds to the observed records the one that its outcome carries and no other, also if it
  -- is refused or fails; that one is stored exactly if the sink stores it, and the refusals are
  -- counted once each.
  pub invoke-IsRecorded :
      (call : Call) (s : State g) → IsRecorded (invoke g call s).0 s (invoke g call s).1
  unfolding invoke invoke_unobserved
  invoke-IsRecorded call s =
      elim (Result-cases (resolve_for g.registry call.principal call.server call.capability_name)) [
        | inl (capability, e) ↦
            let ended = authorized g call capability s in
            rw (e, invoke_unobserved)
              (observe_outcome-IsRecorded ended.0 s ended.1
                (authorized-SameRecords call capability s))
        | inr (error, e) ↦
            rw (e, invoke_unobserved)
              (observe_outcome-IsRecorded (not_found error) s s (refl, refl, refl))
      ]
