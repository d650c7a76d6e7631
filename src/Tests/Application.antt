-- ===== src/Tests/Application.antt =====
-- The theorems on findings and on the job service, at small inputs.
use secure_mcp_multi_agent_r.Base.{
  get_or, true, ◌≡◌, ◌≢◌, refl, arith, ◌&&◌, List, [], ◌∷◌, map, get, put, pair_eq, eq_iff, text_eq,
  String, some, none, ok, char_count, length_within,
}
use secure_mcp_multi_agent_r.Domain.Access.{public}
use secure_mcp_multi_agent_r.Domain.Status.{completed, planning, is_terminal}
use secure_mcp_multi_agent_r.Domain.Job.{ResearchJob}
use secure_mcp_multi_agent_r.Domain.Invocations.{
  ToolInvocation, allow, succeeded, no_error, sanitize_arguments,
}
use secure_mcp_multi_agent_r.Domain.Evidence.{
  supported, not_required, is_cleared, Finding, is_publishable_finding,
}
use secure_mcp_multi_agent_r.Application.Findings.{
  ProposedFinding, ClaimVerdict, check_proposed, proposed_in_bounds, verdicts_by_claim,
  derive_findings,
}
use secure_mcp_multi_agent_r.Application.Findings.Derived.{
  is_unopposed, derive_findings-publishable,
}
use secure_mcp_multi_agent_r.Application.Jobs.{
  Key, Store, ResearchJobCreate, get_job, record_invocation,
}
use secure_mcp_multi_agent_r.Application.Jobs.Reached.{ServiceCall, creating, moving, after_calls}
use secure_mcp_multi_agent_r.Application.Jobs.Steps.{empty-IsKeyed, IsKeyed-put}
use secure_mcp_multi_agent_r.Application.Jobs.Isolation.{SameReads, after_calls-SameReads}
use secure_mcp_multi_agent_r.Application.Jobs.Trail.{
  records_at, is_recorded, record_invocation-after_calls,
}
use secure_mcp_multi_agent_r.Application.Jobs.Endings.{after_calls-terminal}
use secure_mcp_multi_agent_r.Tests.Data.{
  sample_job, small_budget, same, zero_digest, some_arguments,
}

abbrev proposal : ProposedFinding
proposal = record {
  claim = "it is so";
  supporting_evidence_ids = 1 ∷ 2 ∷ [];
  contradicting_evidence_ids = [];
  calculation_ids = [];
  confidence = 900_000;
}

abbrev verdict_on_it : ClaimVerdict
verdict_on_it = record {
  claim = "it is so";
  verdict = supported;
  reasoning = "read it";
  conflicting_evidence_ids = [];
}

derive_findings-publishable_example :
    (fs : List Finding) × (derive_findings (proposal ∷ []) (verdict_on_it ∷ []) not_required
      ≡ ok fs)
    × (map is_publishable_finding fs
        ≡ map
            (λ p.
              is_unopposed p (get (verdicts_by_claim [] (verdict_on_it ∷ [])) p.claim)
              && is_cleared not_required)
            (proposal ∷ []))
unfolding check_proposed proposed_in_bounds length_within char_count
derive_findings-publishable_example =
    derive_findings-publishable (proposal ∷ []) (verdict_on_it ∷ []) not_required (refl, tt)

abbrev no_jobs : Store
no_jobs = record { jobs = []; evidence = []; invocations = []; findings = []; publications = [] }

abbrev question : ResearchJobCreate
question = record {
  question = "why?";
  constraints = [];
  source_requirements = [];
  budget = small_budget;
}

abbrev foreign_calls : List ServiceCall
foreign_calls =
    creating "umbrella" "bob" question public 5 1 ∷ moving "umbrella" 5 planning none none 2 ∷ []

abbrev acme : String
acme = "acme"

abbrev umbrella : String
umbrella = "umbrella"

umbrella-ne-acme : umbrella ≢ acme
umbrella-ne-acme e = ground (arith, eq_iff umbrella acme)

after_calls-SameReads_example : SameReads "acme" no_jobs (after_calls no_jobs foreign_calls)
after_calls-SameReads_example =
    after_calls-SameReads no_jobs foreign_calls "acme" empty-IsKeyed
      (umbrella-ne-acme, (umbrella-ne-acme, tt))

abbrev ended_job : ResearchJob
ended_job = record sample_job { status = completed }

abbrev one_ended : Store
one_ended = record no_jobs { jobs = put [] ("acme", 1) ended_job }

after_calls-terminal_example :
    (now : ResearchJob) × (get_job
        (after_calls one_ended (moving "acme" 1 planning none none 2 ∷ []))
        "acme"
        1
      ≡ ok now)
    × (now.status ≡ completed)
unfolding get_job get put is_terminal
after_calls-terminal_example =
    after_calls-terminal one_ended (moving "acme" 1 planning none none 2 ∷ []) "acme" 1 ended_job
      (IsKeyed-put [] ended_job empty-IsKeyed) refl refl (refl, tt)

abbrev one_record : ToolInvocation
one_record = record {
  id = 7;
  job_id = 1;
  task_id = 1;
  tenant_id = "acme";
  mcp_server = "web";
  capability = "search";
  sanitized_arguments = sanitize_arguments same some_arguments;
  argument_digest = zero_digest some_arguments;
  policy_version = "v1";
  authorization_decision = allow;
  outcome = succeeded;
  error_class = no_error;
  started_at = 3;
  duration_ms = some 2;
}

abbrev own_key : Key
own_key = (one_record.tenant_id, one_record.job_id)

record_invocation-after_calls_example :
    ((more : List ToolInvocation) × (records_at
          (after_calls (record_invocation no_jobs one_record) foreign_calls)
          own_key
        ≡ one_record ∷ more))
    × (is_recorded (after_calls (record_invocation no_jobs one_record) foreign_calls) one_record
        ≡ true)
    × (record_invocation
          (after_calls (record_invocation no_jobs one_record) foreign_calls)
          one_record
        ≡ after_calls (record_invocation no_jobs one_record) foreign_calls)
unfolding is_recorded get get_or
record_invocation-after_calls_example =
    record_invocation-after_calls no_jobs one_record foreign_calls
