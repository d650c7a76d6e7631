-- ===== src/Domain/Approvals.antt =====
-- src/research_platform/domain/approvals.py: a reviewer's decision on one exact call.
pub mod Binding
use secure_mcp_multi_agent_r.Base.{
  ℕ, ◌+◌, Bool, true, false, not, ◌&&◌, ◌||◌, leb, ltb, String, ◌==◌, text_eq, length_within,
  Option, none, some, Result, ok, err, guard, refuse_if, ◌>>=◌, ◌>>◌, if◌then◌else◌,
}
use secure_mcp_multi_agent_r.Domain.Invocations.{Arguments, is_digest}

pub data ApprovalKind : Type 0 where
  scope sensitive_tool publication : ApprovalKind

pub data ApprovalStatus : Type 0 where
  pending granted rejected expired : ApprovalStatus

abbrev pub is_pending : ApprovalStatus → Bool
is_pending pending = true
is_pending _ = false

abbrev pub is_granted : ApprovalStatus → Bool
is_granted granted = true
is_granted _ = false

abbrev pub is_decided : ApprovalStatus → Bool
is_decided granted = true
is_decided rejected = true
is_decided _ = false

pub record ApprovalRequest : Type 0 where
  pub id : ℕ
  pub job_id : ℕ
  pub tenant_id : String
  pub kind : ApprovalKind
  pub mcp_server : String
  pub capability : String
  pub resource_id : String
  pub argument_digest : String
  pub reason : String
  pub status : ApprovalStatus
  pub requested_at : ℕ
  pub expires_at : ℕ
  pub reviewer_id : Option String
  pub decided_at : Option ℕ

-- `ApprovalMismatch`, the `ValueError` of `decide`, and pydantic's errors.
pub data ApprovalError : Type 0 where
  approval_mismatch : ApprovalError
  already_decided : ApprovalStatus → ApprovalError
  field_out_of_bounds expires_before_request undecided_by : ApprovalError

-- The `Field` bounds of `ApprovalRequest`.
unfoldable pub approval_in_bounds : ApprovalRequest → Bool
approval_in_bounds a =
    length_within 1 100 a.tenant_id
    && length_within 1 4_000 a.mcp_server
    && length_within 1 4_000 a.capability
    && length_within 1 4_000 a.resource_id
    && is_digest a.argument_digest
    && length_within 1 4_000 a.reason
    && (elim a.reviewer_id [ none ↦ true | some r ↦ length_within 0 200 r ])

abbrev pub is_absent {ℓ} : {A : Type ℓ} → Option A → Bool
is_absent none = true
is_absent (some a) = false

-- The validator `decided_requests_need_a_reviewer`.
unfoldable pub check_decided : ApprovalRequest → Result ApprovalError (Unit {0})
check_decided a = do
  refuse_if (leb a.expires_at a.requested_at) expires_before_request
  refuse_if (is_decided a.status && (is_absent a.reviewer_id || is_absent a.decided_at))
      undecided_by

unfoldable pub check_approval : ApprovalRequest → Result ApprovalError ApprovalRequest
check_approval a = do guard (approval_in_bounds a) field_out_of_bounds; check_decided a; ok a

unfoldable pub decide :
    ApprovalRequest
    → (reviewer_id : String) (is_grant : Bool) (at : ℕ) → Result ApprovalError ApprovalRequest
decide a reviewer_id is_grant at =
    if not (is_pending a.status)
    then err (already_decided a.status)
    else if leb a.expires_at at
    then ok (record a { status = expired; decided_at = some at })
    else ok (record a {
      status = (if is_grant then granted else rejected);
      reviewer_id = some reviewer_id;
      decided_at = some at;
    })

-- The call that is attempted: the keyword arguments of `is_valid_for` but the time.
pub record AttemptedCall : Type 0 where
  pub mcp_server : String
  pub capability : String
  pub resource_id : String
  pub arguments : Arguments

module _ (digest : Arguments → String) where
  unfoldable pub is_valid_for : ApprovalRequest → AttemptedCall → ℕ → Bool
  is_valid_for a call at =
      is_granted a.status
      && ltb at a.expires_at
      && a.mcp_server == call.mcp_server
      && a.capability == call.capability
      && a.resource_id == call.resource_id
      && a.argument_digest == digest call.arguments

  unfoldable pub authorize : ApprovalRequest → AttemptedCall → ℕ → Result ApprovalError (Unit {0})
  authorize a call at = guard (is_valid_for a call at) approval_mismatch

  -- `request_sensitive_tool_approval`, with the time of the request and how long it is valid.
  unfoldable pub request_sensitive_tool_approval :
      (id job_id : ℕ) (tenant_id : String)
      → AttemptedCall
      → (reason : String) (valid_for now : ℕ) → Result ApprovalError ApprovalRequest
  request_sensitive_tool_approval id job_id tenant_id call reason valid_for now =
      check_approval (record {
        id = id;
        job_id = job_id;
        tenant_id = tenant_id;
        kind = sensitive_tool;
        mcp_server = call.mcp_server;
        capability = call.capability;
        resource_id = call.resource_id;
        argument_digest = digest call.arguments;
        reason = reason;
        status = pending;
        requested_at = now;
        expires_at = now + valid_for;
        reviewer_id = none;
        decided_at = none;
      })
