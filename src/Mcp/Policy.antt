-- ===== src/Mcp/Policy.antt =====
-- src/research_platform/mcp/policy.py. The texts of the reasons are the constructors of `Reason`.
use secure_mcp_multi_agent_r.Base.{ℕ, ◌≡◌, Bool, true, false, not, arith, String, if◌then◌else◌}
use secure_mcp_multi_agent_r.Domain.Access.{clearance_covers}
use secure_mcp_multi_agent_r.Domain.Invocations.{Arguments}
use secure_mcp_multi_agent_r.Identity.{Principal}
use secure_mcp_multi_agent_r.Mcp.Registry.{
  Capability, is_available_to_tenant, is_visible_to, is_executable_by,
}

pub record AuthorizationRequest : Type 0 where
  pub principal : Principal
  pub capability : Capability
  pub job_id : ℕ
  pub task_id : ℕ
  pub arguments : Arguments

pub data Reason : Type 0 where
  permitted_by_policy not_offered_to_tenant clearance_too_low may_not_execute : Reason
  external : String → Reason

pub record PolicyDecision : Type 0 where
  pub allowed : Bool
  pub reason : Reason
  pub policy_version : String

-- `RegistryPolicyEngine.evaluate`
unfoldable pub evaluate : String → AuthorizationRequest → PolicyDecision
evaluate version request =
    if not (is_available_to_tenant request.capability request.principal.tenant_id)
    then record { allowed = false; reason = not_offered_to_tenant; policy_version = version }
    else if not (clearance_covers request.principal.clearance request.capability.max_access_class)
    then record { allowed = false; reason = clearance_too_low; policy_version = version }
    else if not (is_executable_by request.capability request.principal)
    then record { allowed = false; reason = may_not_execute; policy_version = version }
    else record { allowed = true; reason = permitted_by_policy; policy_version = version }

-- The local policy allows a call exactly if the capability may be executed by its principal; the
-- checks in front of that one only choose the reason.
pub evaluate-eq-is_executable_by :
    (version : String) (request : AuthorizationRequest)
    → (evaluate version request).allowed ≡ is_executable_by request.capability request.principal
unfolding evaluate is_executable_by is_visible_to
evaluate-eq-is_executable_by version request = ground arith
