-- ===== src/Tests/Domain.antt =====
-- The theorems on jobs, invocations and approvals, at small inputs.
use secure_mcp_multi_agent_r.Base.{
  ◌≡◌, refl, true, false, List, [], ◌∷◌, get, contains, length_within, char_count, has_prefix, some,
  none, ok, err, text_eq,
}
use secure_mcp_multi_agent_r.Domain.Status.{
  JobStatus, planning, researching, analyzing, reporting, completed, may_move, allowed_transitions,
}
use secure_mcp_multi_agent_r.Domain.Status.Stages.{visits}
use secure_mcp_multi_agent_r.Domain.Job.{ResearchJob, transition_to, kept_detail, kept_usage}
use secure_mcp_multi_agent_r.Domain.Job.Progress.{
  Move, apply_move, apply_moves, targets, completed-visits_stages,
}
use secure_mcp_multi_agent_r.Domain.Invocations.{
  redacted, is_sensitive_argument, sanitize_arguments, is_digest, record_denied_invocation,
  ToolInvocation, deny, denied, policy_denied,
}
use secure_mcp_multi_agent_r.Domain.Invocations.Redaction.{get-sanitize_arguments}
use secure_mcp_multi_agent_r.Domain.Invocations.Records.{record_denied_invocation_lem}
use secure_mcp_multi_agent_r.Domain.Approvals.{
  ApprovalRequest, sensitive_tool, pending, granted, already_decided, decide, is_valid_for,
  check_decided, check_approval, approval_in_bounds, request_sensitive_tool_approval,
}
use secure_mcp_multi_agent_r.Domain.Approvals.Binding.{
  request-decide-is_valid_for, decide-decide, check_decided-decide,
}
use secure_mcp_multi_agent_r.Tests.Data.{sample_job, same, zero_digest, some_arguments, lookup}

abbrev move_to : JobStatus → Move
move_to s = record { target = s; detail = none; usage = none; now = 1 }

abbrev five_moves : List Move
five_moves =
    move_to planning
    ∷ move_to researching
    ∷ move_to analyzing
    ∷ move_to reporting
    ∷ move_to completed
    ∷ []

abbrev finished_job : ResearchJob
finished_job = record sample_job { status = completed; updated_at = 1 }

abbrev no_moves : List Move
no_moves = []

completed-visits_stages_example :
    visits (planning ∷ researching ∷ analyzing ∷ reporting ∷ completed ∷ []) (targets five_moves)
    ≡ true
unfolding apply_moves apply_move transition_to kept_detail kept_usage may_move allowed_transitions
completed-visits_stages_example =
    completed-visits_stages sample_job five_moves {final = finished_job} refl refl refl

get-sanitize_arguments_example :
    get (sanitize_arguments same some_arguments) "token" ≡ some redacted
unfolding get sanitize_arguments is_sensitive_argument contains
get-sanitize_arguments_example = get-sanitize_arguments same some_arguments "token"

record_denied_invocation_lem_example :
    (i : ToolInvocation) × (record_denied_invocation same zero_digest 7 1 1 "acme" "web" "search"
        some_arguments "v1" 5
      ≡ ok i)
    × (i.authorization_decision ≡ deny)
    × (i.outcome ≡ denied)
    × (i.error_class ≡ policy_denied)
    × (i.sanitized_arguments ≡ sanitize_arguments same some_arguments)
    × (i.argument_digest ≡ zero_digest some_arguments)
unfolding is_digest length_within char_count has_prefix
record_denied_invocation_lem_example =
    record_denied_invocation_lem same zero_digest 7 1 1 "acme" "web" "search" some_arguments "v1" 5
      refl refl refl refl refl

abbrev opened_request : ApprovalRequest
opened_request = record {
  id = 3;
  job_id = 1;
  tenant_id = "acme";
  kind = sensitive_tool;
  mcp_server = "web";
  capability = "search";
  resource_id = "r";
  argument_digest = zero_digest some_arguments;
  reason = "why";
  status = pending;
  requested_at = 10;
  expires_at = 30;
  reviewer_id = none;
  decided_at = none;
}

abbrev granted_request : ApprovalRequest
granted_request = record opened_request {
  status = granted;
  reviewer_id = some "rex";
  decided_at = some 15;
}

request-decide-is_valid_for_example : is_valid_for zero_digest granted_request lookup 20 ≡ true
unfolding request_sensitive_tool_approval check_approval check_decided approval_in_bounds is_digest
    length_within char_count has_prefix decide
request-decide-is_valid_for_example =
    request-decide-is_valid_for zero_digest 3 1 "acme" lookup "why" 20 10 {opened = opened_request}
      "rex" true 15 {decided = granted_request} lookup 20 refl refl

decide-decide_example : decide granted_request "sam" false 16 ≡ err (already_decided granted)
unfolding decide
decide-decide_example =
    decide-decide opened_request "rex" true 15 {b = granted_request} "sam" false 16 refl

check_decided-decide_example : check_decided granted_request ≡ ok tt
unfolding check_decided decide
check_decided-decide_example =
    check_decided-decide opened_request "rex" true 15 {b = granted_request} refl refl
