-- ===== src/Mcp/Gateway/Endings.antt =====
-- The ways in which `CapabilityGateway.invoke` of src/research_platform/mcp/gateway.py ends, said
-- on their own: what the gates and the server answered, and what the record says then.
use secure_mcp_multi_agent_r.Base.{
  ℕ, ◌≡◌, ◌⊎◌, true, false, length, String, some, Result, ok, err, is_ok, if◌then◌else◌,
}
use secure_mcp_multi_agent_r.Domain.Invocations.{
  ToolInvocation, AuthorizationDecision, allow, deny, InvocationOutcome, succeeded, failed, denied,
  ErrorClass, no_error, policy_denied, result_too_large, upstream_unavailable, budget_exhausted,
  InvocationError, sanitize_arguments, check_invocation,
}
use secure_mcp_multi_agent_r.Mcp.Registry.{Capability, RegistryError, resolve_for}
use secure_mcp_multi_agent_r.Mcp.Sanitizer.{SanitizerError, sanitize_result, Text}
use secure_mcp_multi_agent_r.Mcp.Budgets as Ledger
use secure_mcp_multi_agent_r.Mcp.Breaker.{
  BreakerError, circuit_open, assertion_failed, breaker_store_unavailable, threshold_too_low,
}
use secure_mcp_multi_agent_r.Mcp.Calls.{
  Call, Answer, answered, upstream_error, unforeseen, Outcome, completed, capability_denied,
  capability_failed, not_found, invalid_record, crashed, Parts, State, elapsed_ms,
}
use secure_mcp_multi_agent_r.Mcp.Gateway.{decision_on, approved}
use secure_mcp_multi_agent_r.Mcp.Gateway.Enforcement.{request_of}

module _ (g : Parts) (call : Call) (s : State g) where
  -- The record is about this call of the capability: its identifier, job, task, tenant, server,
  -- name, arguments (redacted and by digest) and policy version, and it says how the call ended.
  pub record Describes (c : Capability) (decision : AuthorizationDecision)
      (outcome : InvocationOutcome) (error : ErrorClass) (ms : ℕ) (i : ToolInvocation)
      : Type 0 where
    pub same_id : i.id ≡ call.fresh_id
    pub same_job : i.job_id ≡ call.job_id
    pub same_task : i.task_id ≡ call.task_id
    pub same_tenant : i.tenant_id ≡ call.principal.tenant_id
    pub same_server : i.mcp_server ≡ c.server
    pub same_capability : i.capability ≡ c.name
    pub same_arguments : i.sanitized_arguments ≡ sanitize_arguments g.lower call.arguments
    pub same_digest : i.argument_digest ≡ g.digest call.arguments
    pub same_policy : i.policy_version ≡ (decision_on g call c).policy_version
    pub same_decision : i.authorization_decision ≡ decision
    pub same_outcome : i.outcome ≡ outcome
    pub same_error : i.error_class ≡ error
    pub same_duration : i.duration_ms ≡ some ms
    pub same_start : i.started_at ≡ call.times.recorded_at

  module _ (c : Capability) where
    -- The policy allows the call, and the approval that it may need is there.
    abbrev pub IsAuthorized : Type 0
    IsAuthorized = ((decision_on g call c).allowed ≡ true) × (approved g call c ≡ true)

    -- What the ledger says to one more call.
    abbrev pub claim : Result Ledger.BudgetError ℕ
    claim = (g.budgets.reserve_call s.budgets call.job_id call.budget).0

    -- What the circuit breaker says.
    abbrev pub gate : Result BreakerError (Unit {0})
    gate = (g.breaker.ensure_closed s.breaker c.server call.times.breaker_at).0

    -- What the server answers to the request.
    abbrev pub answer : Answer
    answer = g.executor (length s.sent) (request_of g call c)

    -- The request was sent.
    abbrev pub IsSent : Type 0
    IsSent = IsAuthorized × (is_ok claim ≡ true) × (is_ok gate ≡ true)

    -- Why the call is refused, with the decision and the error class that are recorded then.
    pub data Refusal : AuthorizationDecision → ErrorClass → Type 0 where
      by_policy : (decision_on g call c).allowed ≡ false → Refusal deny policy_denied
      unapproved :
          (decision_on g call c).allowed ≡ true
          → approved g call c ≡ false
          → Refusal deny policy_denied
      out_of_calls :
          {job_id limit : ℕ} {kind : Ledger.BudgetKind}
          → IsAuthorized
          → claim ≡ err (Ledger.budget_exhausted job_id limit kind)
          → Refusal allow budget_exhausted
      ledger_unavailable :
          IsAuthorized
          → claim ≡ err Ledger.limit_store_unavailable
          → Refusal allow upstream_unavailable
      circuit_is_open :
          {server : String} {until : ℕ}
          → IsAuthorized
          → is_ok claim ≡ true
          → gate ≡ err (circuit_open server until)
          → Refusal allow upstream_unavailable
      breaker_unavailable :
          IsAuthorized
          → is_ok claim ≡ true
          → gate ≡ err breaker_store_unavailable
          → Refusal allow upstream_unavailable

    -- Which exceptions pass through without a record.
    pub data Crash : Type 0 where
      negative_claim : IsAuthorized → claim ≡ err Ledger.negative_usage → Crash
      failed_assertion : IsAuthorized → is_ok claim ≡ true → gate ≡ err assertion_failed → Crash
      no_threshold : IsAuthorized → is_ok claim ≡ true → gate ≡ err threshold_too_low → Crash
      unforeseen_error : IsSent → answer ≡ unforeseen → Crash
      failure_not_counted :
          {error : ErrorClass} {e : BreakerError}
          → IsSent
          → answer ≡ upstream_error error
          → (g.breaker.record_failure
              (g.breaker.ensure_closed s.breaker c.server call.times.breaker_at).1
              c.server
              call.times.failure_at
              call.times.reopened_at).0
            ≡ err e
          → Crash
      not_sanitized :
          {raw : Text} {e : SanitizerError}
          → IsSent
          → answer ≡ answered raw
          → sanitize_result g.is_format g.matches raw c.max_result_bytes ≡ err e
          → Crash

    -- The record that was made does not pass its validators.
    abbrev pub IsInvalid : InvocationError → Type 0
    IsInvalid e =
        (decision : AuthorizationDecision) × (outcome : InvocationOutcome) × (error : ErrorClass)
        × (ms : ℕ) × (i : ToolInvocation) × Describes c decision outcome error ms i
        × (check_invocation g.lower i ≡ err e)

    -- How the call ended, for this capability.
    abbrev pub FitsFor : Outcome → Type 0
    FitsFor (completed i content) =
        IsSent
        × ((raw : Text) × (answer ≡ answered raw)
            × (sanitize_result g.is_format g.matches raw c.max_result_bytes ≡ ok content))
        × Describes c allow (if content.truncated then failed else succeeded)
            (if content.truncated then result_too_large else no_error)
            (elapsed_ms call.times.started_at call.times.finished_at) i
    FitsFor (capability_denied i) =
        Refusal i.authorization_decision i.error_class
        × Describes c i.authorization_decision denied i.error_class 0 i
    FitsFor (capability_failed i) =
        IsSent
        × (answer ≡ upstream_error i.error_class)
        × Describes c allow failed i.error_class
            (elapsed_ms call.times.started_at call.times.finished_at) i
    FitsFor (not_found e) = ⊥
    FitsFor (invalid_record e) = IsInvalid e
    FitsFor crashed = Crash

  -- The name does not resolve, and that is the answer; or it does, and the call ended so.
  abbrev pub Fits : Outcome → Type 0
  Fits outcome =
      ((c : Capability) × (resolve_for g.registry call.principal call.server call.capability_name
          ≡ ok c)
        × FitsFor c outcome)
      ⊎ ((e : RegistryError) × (resolve_for g.registry call.principal call.server
              call.capability_name
            ≡ err e)
          × (outcome ≡ not_found e))
