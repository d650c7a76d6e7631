-- ===== src/Mcp/Gateway.antt =====
-- src/research_platform/mcp/gateway.py: one call from the agent's request to its audit record.
-- Spans are left out; the counters that metrics keep, the records handed to `_observe` and those
-- that the sink stored are parts of the state.
pub mod Enforcement
pub mod Metering
pub mod Endings
pub mod Audit
pub mod Recording
use secure_mcp_multi_agent_r.Base.{
  ℕ, ◌+◌, ◌-◌, ◌/◌, ◌≡◌, Bool, true, false, not, ◌&&◌, leb, ltb, List, [], ◌∷◌, ◌++◌, length,
  String, Option, none, some, Result, ok, err, is_ok, if◌then◌else◌,
}
use secure_mcp_multi_agent_r.Domain.Job.{ResearchBudget}
use secure_mcp_multi_agent_r.Domain.Invocations.{
  Arguments, AuthorizationDecision, allow, deny, InvocationOutcome, succeeded, failed, denied,
  ErrorClass, no_error, policy_denied, upstream_unavailable, result_too_large, budget_exhausted,
  error_is, ToolInvocation, InvocationError, sanitize_arguments, check_invocation,
}
use secure_mcp_multi_agent_r.Domain.Approvals.{ApprovalRequest, AttemptedCall, authorize}
use secure_mcp_multi_agent_r.Identity.{Principal}
use secure_mcp_multi_agent_r.Mcp.Registry.{Capability, Registry, RegistryError, resolve_for}
use secure_mcp_multi_agent_r.Mcp.Policy.{AuthorizationRequest, PolicyDecision}
use secure_mcp_multi_agent_r.Mcp.Budgets as Ledger
use secure_mcp_multi_agent_r.Mcp.Breaker.{
  BreakerError, circuit_open, assertion_failed, breaker_store_unavailable, threshold_too_low,
}
use secure_mcp_multi_agent_r.Mcp.Sanitizer.{
  Text, UntrustedContent, InjectionFlag, SanitizerError, sanitize_result,
}
use secure_mcp_multi_agent_r.Mcp.Ports.{Budgets, Breaker}
use secure_mcp_multi_agent_r.Mcp.Calls.{
  ExecutionRequest, Answer, answered, upstream_error, unforeseen, Times, Call, AuditContext,
  Outcome, completed, capability_denied, capability_failed, not_found, invalid_record, crashed,
  elapsed_ms, Parts, State,
}

abbrev pub is_denied : InvocationOutcome → Bool
is_denied denied = true
is_denied _ = false

module _ (g : Parts) where
  unfoldable pub context_of : Call → Capability → PolicyDecision → AuditContext
  context_of call capability decision = record {
    job_id = call.job_id;
    task_id = call.task_id;
    tenant_id = call.principal.tenant_id;
    capability = capability;
    sanitized_arguments = sanitize_arguments g.lower call.arguments;
    argument_digest = g.digest call.arguments;
    policy_version = decision.policy_version;
  }

  -- `_AuditContext.record`; building the record validates it.
  unfoldable pub record_of :
      Call
      → AuditContext
      → AuthorizationDecision
      → InvocationOutcome
      → ErrorClass
      → (duration_ms : ℕ) → Result InvocationError ToolInvocation
  record_of call context decision outcome error duration_ms = check_invocation g.lower (record {
    id = call.fresh_id;
    job_id = context.job_id;
    task_id = context.task_id;
    tenant_id = context.tenant_id;
    mcp_server = context.capability.server;
    capability = context.capability.name;
    sanitized_arguments = context.sanitized_arguments;
    argument_digest = context.argument_digest;
    policy_version = context.policy_version;
    authorization_decision = decision;
    outcome = outcome;
    error_class = error;
    started_at = call.times.recorded_at;
    duration_ms = some duration_ms;
  })

  -- `raise audit.denied(...)`
  unfoldable pub denial : Call → AuditContext → ErrorClass → Outcome
  unfolding record_of
  denial call context error =
      let decision = if error_is error policy_denied then deny else allow in
      elim (record_of call context decision denied error 0) [
        | ok invocation ↦ capability_denied invocation
        | err e ↦ invalid_record e
      ]

  -- `_execute` behind a successful answer.
  unfoldable pub complete : Call → AuditContext → Text → Outcome
  unfolding record_of
  complete call context raw =
      elim (sanitize_result g.is_format g.matches raw context.capability.max_result_bytes) [
        | err e ↦ crashed
        | ok content ↦
            elim (record_of call context allow (if content.truncated then failed else succeeded)
              (if content.truncated then result_too_large else no_error)
              (elapsed_ms call.times.started_at call.times.finished_at)) [
                | ok invocation ↦ completed invocation content
                | err e ↦ invalid_record e
              ]
      ]

  unfoldable pub fail_upstream : Call → AuditContext → ErrorClass → Outcome
  unfolding record_of
  fail_upstream call context error =
      elim (record_of call context allow failed error
        (elapsed_ms call.times.started_at call.times.finished_at)) [
          | ok invocation ↦ capability_failed invocation
          | err e ↦ invalid_record e
        ]

  -- `_execute`: the request is sent, and the breaker is told how it went.
  unfoldable pub execute : Call → AuditContext → State g → Outcome × State g
  unfolding complete fail_upstream
  execute call context s =
      let request : ExecutionRequest = record {
        capability = context.capability;
        principal = call.principal;
        arguments = call.arguments;
      } in
      let sent = record s { sent = s.sent ++ (call.job_id, request) ∷ [] } in
      elim (g.executor (length s.sent) request) [
        | unforeseen ↦ (crashed, sent)
        | upstream_error error ↦
            let (told, breaker) =
              g.breaker.record_failure s.breaker context.capability.server call.times.failure_at
                call.times.reopened_at in
            (
              elim told [ err e ↦ crashed | ok _ ↦ fail_upstream call context error ],
              record sent { breaker = breaker },
            )
        | answered raw ↦ (
          complete call context raw,
          record sent { breaker = g.breaker.record_success s.breaker context.capability.server },
        )
      ]

  -- `ensure_closed`, with the two exceptions that `_invoke` turns into a refusal.
  unfoldable pub with_circuit : Call → AuditContext → State g → Outcome × State g
  with_circuit call context s =
      let (gate, breaker) =
        g.breaker.ensure_closed s.breaker context.capability.server call.times.breaker_at in
      let seen = record s { breaker = breaker } in
      elim gate [
        | ok _ ↦ execute call context seen
        | err (circuit_open server until) ↦ (denial call context upstream_unavailable, seen)
        | err breaker_store_unavailable ↦ (denial call context upstream_unavailable, seen)
        | err assertion_failed ↦ (crashed, seen)
        | err threshold_too_low ↦ (crashed, seen)
      ]

  -- `reserve_call`, with the two exceptions that `_invoke` turns into a refusal.
  unfoldable pub with_budget : Call → AuditContext → State g → Outcome × State g
  with_budget call context s =
      let (claim, budgets) = g.budgets.reserve_call s.budgets call.job_id call.budget in
      let claimed = record s { budgets = budgets } in
      elim claim [
        | ok n ↦ with_circuit call context claimed
        | err (Ledger.budget_exhausted job limit kind) ↦
            (denial call context budget_exhausted, claimed)
        | err Ledger.limit_store_unavailable ↦ (denial call context upstream_unavailable, claimed)
        | err Ledger.negative_usage ↦ (crashed, claimed)
      ]

  -- `_check_approval`: whether an approval that the capability requires authorizes the call.
  unfoldable pub approved : Call → Capability → Bool
  approved call capability =
      if not capability.requires_approval then true else (elim call.approval [
        | none ↦ false
        | some approval ↦ is_ok (
            authorize g.digest approval
              (record {
                mcp_server = capability.server;
                capability = capability.name;
                resource_id = approval.resource_id;
                arguments = call.arguments;
              })
              call.times.approval_at)
      ])

  abbrev pub decision_on : Call → Capability → PolicyDecision
  decision_on call capability = g.policy (record {
    principal = call.principal;
    capability = capability;
    job_id = call.job_id;
    task_id = call.task_id;
    arguments = call.arguments;
  })

  -- `_invoke` once the capability is resolved.
  unfoldable pub authorized : Call → Capability → State g → Outcome × State g
  authorized call capability s =
      let decision = decision_on call capability in
      let context = context_of call capability decision in
      if not decision.allowed
      then (denial call context policy_denied, s)
      else if not (approved call capability)
      then (denial call context policy_denied, s)
      else with_budget call context s

  unfoldable pub invoke_unobserved : Call → State g → Outcome × State g
  unfolding authorized
  invoke_unobserved call s =
      elim (resolve_for g.registry call.principal call.server call.capability_name) [
        | err e ↦ (not_found e, s)
        | ok capability ↦ authorized call capability s
      ]

  -- `_observe` and `_record`: count the record, and hand it to the sink.
  unfoldable pub observe : ToolInvocation → State g → State g
  observe i s = record s {
    observed = s.observed ++ i ∷ [];
    stored = (if g.sink i then s.stored ++ i ∷ [] else s.stored);
    permission_denials =
        (if is_denied i.outcome then s.permission_denials + 1 else s.permission_denials);
  }

  -- What `invoke` does with each way in which `_invoke` can end.
  unfoldable pub observe_outcome : Outcome → State g → State g
  unfolding observe
  observe_outcome (completed i content) s =
      let seen = observe i s in
      record seen { injection_flags = seen.injection_flags + length content.injection_flags }
  observe_outcome (capability_denied i) s = observe i s
  observe_outcome (capability_failed i) s = observe i s
  observe_outcome _ s = s

  unfoldable pub invoke : Call → State g → Outcome × State g
  invoke call s =
      let (outcome, s') = invoke_unobserved call s in (outcome, observe_outcome outcome s')
