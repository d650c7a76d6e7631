-- ===== src/Domain/Invocations/Records.antt =====
-- About the validators of `ToolInvocation` in src/research_platform/domain/invocations.py.
use secure_mcp_multi_agent_r.Base.{ℕ, ◌≡◌, refl, true, arith, String, length_within, some, ok}
use secure_mcp_multi_agent_r.Domain.Invocations.{
  Arguments, ToolInvocation, deny, denied, policy_denied, is_digest, sanitize_arguments,
  check_outcome, check_invocation, record_denied_invocation, invocation_in_bounds,
}
use secure_mcp_multi_agent_r.Domain.Invocations.Redaction.{sanitized_passes}

-- A record with redacted arguments, fields within bounds and an outcome that fits its error class
-- passes the validators.
pub check_invocation_passes :
    (lower : String → String) (i : ToolInvocation) (arguments : Arguments)
    → i.sanitized_arguments ≡ sanitize_arguments lower arguments
    → invocation_in_bounds i ≡ true
    → check_outcome i.authorization_decision i.outcome i.error_class ≡ ok tt
    → check_invocation lower i ≡ ok i
unfolding check_invocation
check_invocation_passes lower i arguments clean bounds fits =
    ground (arith, sanitized_passes lower arguments)

-- A refusal by policy can always be recorded: with fields within bounds and a digest of the
-- expected form, the record is built, and it is denied with the policy's error class, its
-- arguments redacted and bound to the digest of those that were given.
pub record_denied_invocation_lem :
    (lower : String → String) (digest : Arguments → String) (id job_id task_id : ℕ)
    (tenant_id mcp_server capability : String) (arguments : Arguments) (policy_version : String)
    (now : ℕ)
    → length_within 1 100 tenant_id ≡ true
    → length_within 1 4_000 mcp_server ≡ true
    → length_within 1 4_000 capability ≡ true
    → is_digest (digest arguments) ≡ true
    → length_within 1 4_000 policy_version ≡ true
    → (i : ToolInvocation) × (record_denied_invocation lower digest id job_id task_id tenant_id
          mcp_server capability arguments policy_version now
        ≡ ok i)
      × (i.authorization_decision ≡ deny)
      × (i.outcome ≡ denied)
      × (i.error_class ≡ policy_denied)
      × (i.sanitized_arguments ≡ sanitize_arguments lower arguments)
      × (i.argument_digest ≡ digest arguments)
unfolding record_denied_invocation
record_denied_invocation_lem lower digest id job_id task_id tenant_id mcp_server capability
      arguments policy_version now t s c d v =
    (
      record {
        id = id;
        job_id = job_id;
        task_id = task_id;
        tenant_id = tenant_id;
        mcp_server = mcp_server;
        capability = capability;
        sanitized_arguments = sanitize_arguments lower arguments;
        argument_digest = digest arguments;
        policy_version = policy_version;
        authorization_decision = deny;
        outcome = denied;
        error_class = policy_denied;
        started_at = now;
        duration_ms = some 0;
      },
      check_invocation_passes lower _ arguments refl (unfold invocation_in_bounds in ground arith)
          (unfold check_outcome in refl),
      refl,
      refl,
      refl,
      refl,
      refl,
    )
