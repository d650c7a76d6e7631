-- ===== src/Domain/Approvals/Binding.antt =====
-- About `decide`, `is_valid_for` and `request_sensitive_tool_approval` of
-- src/research_platform/domain/approvals.py: which calls an approval is for.
use secure_mcp_multi_agent_r.Base.{
  ℕ, ◌+◌, ◌≡◌, Bool, true, false, ◌&&◌, arith, ltb, String, ◌==◌, text_eq, ok, err, ap, ◌∙◌,
}
use secure_mcp_multi_agent_r.Domain.Invocations.{Arguments}
use secure_mcp_multi_agent_r.Domain.Approvals.{
  ApprovalRequest, AttemptedCall, already_decided, decide, is_valid_for, check_decided,
  check_approval, request_sensitive_tool_approval,
}

-- The call that an approval names.
abbrev names_call : (digest : Arguments → String) → ApprovalRequest → AttemptedCall → Bool
names_call digest a call =
    a.mcp_server == call.mcp_server
    && a.capability == call.capability
    && a.resource_id == call.resource_id
    && a.argument_digest == digest call.arguments

decide-is_valid_for :
    (digest : Arguments → String) (a : ApprovalRequest) (reviewer_id : String) (is_grant : Bool)
    (decided_at : ℕ) {decided : ApprovalRequest} (call : AttemptedCall) (at : ℕ)
    → decide a reviewer_id is_grant decided_at ≡ ok decided
    → is_valid_for digest decided call at
      ≡ (is_grant && ltb decided_at a.expires_at && ltb at a.expires_at && names_call digest a call)
unfolding decide is_valid_for
decide-is_valid_for digest a reviewer_id true decided_at call at h = ground arith
decide-is_valid_for digest a reviewer_id false decided_at call at h = ground arith

check_approval-eq : (a : ApprovalRequest) {b : ApprovalRequest} → check_approval a ≡ ok b → b ≡ a
unfolding check_approval
check_approval-eq a h = ground arith

-- A request decided by a reviewer authorizes a call exactly if the reviewer granted it in time,
-- the approval has not expired since, and the call has the server, the capability, the resource
-- and the argument digest of the call that the approval was opened for.
pub request-decide-is_valid_for :
    (digest : Arguments → String) (id job_id : ℕ) (tenant_id : String) (proposed : AttemptedCall)
    (reason : String) (valid_for now : ℕ) {opened : ApprovalRequest} (reviewer_id : String)
    (is_grant : Bool) (decided_at : ℕ) {decided : ApprovalRequest} (call : AttemptedCall) (at : ℕ)
    → request_sensitive_tool_approval digest id job_id tenant_id proposed reason valid_for now
      ≡ ok opened
    → decide opened reviewer_id is_grant decided_at ≡ ok decided
    → is_valid_for digest decided call at ≡ (
        is_grant
        && ltb decided_at (now + valid_for)
        && ltb at (now + valid_for)
        && (proposed.mcp_server == call.mcp_server
            && proposed.capability == call.capability
            && proposed.resource_id == call.resource_id
            && digest proposed.arguments == digest call.arguments))
unfolding request_sensitive_tool_approval
request-decide-is_valid_for digest id job_id tenant_id proposed reason valid_for now {opened}
      reviewer_id is_grant decided_at call at opening deciding =
    decide-is_valid_for digest opened reviewer_id is_grant decided_at call at deciding
    ∙ ap
        (λ (a : ApprovalRequest).
          is_grant
          && ltb decided_at a.expires_at
          && ltb at a.expires_at
          && names_call digest a call)
        (check_approval-eq _ opening)

-- A decision is final: whatever `decide` returned, deciding again raises.
pub decide-decide :
    (a : ApprovalRequest) (reviewer_id : String) (is_grant : Bool) (at : ℕ) {b : ApprovalRequest}
    (other_reviewer : String) (other_grant : Bool) (later : ℕ)
    → decide a reviewer_id is_grant at ≡ ok b
    → decide b other_reviewer other_grant later ≡ err (already_decided b.status)
unfolding decide
decide-decide a reviewer_id is_grant at other_reviewer other_grant later h = ground arith

-- Deciding keeps the validator's rule, although the copy is not validated again: a request that
-- satisfied it expires after it was requested and, once decided, names its reviewer and the time.
pub check_decided-decide :
    (a : ApprovalRequest) (reviewer_id : String) (is_grant : Bool) (at : ℕ) {b : ApprovalRequest}
    → check_decided a ≡ ok tt
    → decide a reviewer_id is_grant at ≡ ok b
    → check_decided b ≡ ok tt
unfolding check_decided decide
check_decided-decide a reviewer_id is_grant at h d = ground arith
