-- ===== src/Tests/Workflow.antt =====
-- The theorems on the runs of jobs, at one run over the in-process service.
use secure_mcp_multi_agent_r.Base.{
  ℕ, ◌≡◌, refl, true, false, List, [], ◌∷◌, ◌⊎◌, all, elem, map, is_empty, nat_eq, text_eq, pair_eq,
  String, none, some, Result, ok, err, get, put, get_or, sort, insert_sorted, has_prefix,
}
use secure_mcp_multi_agent_r.Domain.Access.{public}
use secure_mcp_multi_agent_r.Domain.Status.{
  created, completed, is_terminal, may_move, allowed_transitions,
}
use secure_mcp_multi_agent_r.Domain.Job.{ResearchJob, transition_to, kept_detail, kept_usage}
use secure_mcp_multi_agent_r.Domain.Tasks.{researcher}
use secure_mcp_multi_agent_r.Domain.Evidence.{
  EvidenceRecordCreate, EvidenceRecord, primary, check_evidence,
}
use secure_mcp_multi_agent_r.Application.Findings.{
  ProposedFinding, ClaimVerdict, first_occurrences, derive_findings,
}
use secure_mcp_multi_agent_r.Application.Jobs.{
  Store, add_job, transition, get_job, update_job, add_evidence, store_evidence, record_findings,
  finding_records, replace_findings,
}
use secure_mcp_multi_agent_r.Application.Jobs.Steps.{empty-IsKeyed, IsKeyed-put}
use secure_mcp_multi_agent_r.Agents.Contracts.{
  CriticReview, ResearchReport, cited_evidence_ids, unsupported_citations,
}
use secure_mcp_multi_agent_r.Workflow.Ports.{OrchestrationActivities, approve, reject}
use secure_mcp_multi_agent_r.Workflow.Ports.Service.{ServiceState}
use secure_mcp_multi_agent_r.Workflow.Ports.Service.Laws.{async_jobs, async_jobs-IsReliable}
use secure_mcp_multi_agent_r.Workflow.Outcomes.{Setting, ResearchOutcome}
use secure_mcp_multi_agent_r.Workflow.Orchestration.{run_research_job}
use secure_mcp_multi_agent_r.Workflow.Orchestration.Terminal.{run_research_job-terminal}
use secure_mcp_multi_agent_r.Workflow.Orchestration.Reports.{IsCleared, IsPublished}
use secure_mcp_multi_agent_r.Workflow.Orchestration.Completion.{
  run_research_job-reviewed, run_research_job-completed,
}
use secure_mcp_multi_agent_r.Tests.Data.{sample_job}

abbrev stored_job : ServiceState
stored_job = record {
  store = record {
    jobs = put [] ("acme", 1) sample_job;
    evidence = [];
    invocations = [];
    findings = [];
    publications = [];
  };
  keyed = IsKeyed-put [] sample_job empty-IsKeyed;
  ticks = 10;
}

abbrev one_excerpt : EvidenceRecordCreate
one_excerpt = record {
  excerpt = "It rains.";
  source_uri = "web://r";
  title = none;
  author = none;
  published_at = none;
  trust_level = primary;
  access_class = public;
  content_hash = "sha256:0000000000000000000000000000000000000000000000000000000000000000";
  producing_task_id = 1;
  tool_invocation_id = 1;
}

abbrev helpful : OrchestrationActivities
helpful = record {
  plan = λ job. ok (record {
    tasks =
        record {
          objective = "look";
          assigned_agent = researcher;
          evidence_requirements = "rain" ∷ [];
          source_restrictions = [];
          depends_on = [];
        }
        ∷ [];
    rationale = "r";
  });
  research = λ cycle position job task.
      ok (record { records = one_excerpt ∷ []; unmet_requirements = [] });
  analyze = λ cycle job evidence. ok (record { findings = []; calculations = [] });
  critique = λ cycle job analysis evidence. ok (record { verdicts = []; coverage_gaps = "g" ∷ [] });
  report = λ job critique evidence. ok (record {
    title = "t";
    sections = record { heading = "h"; body = "b" } ∷ [];
    is_partial = false;
    omitted_because = [];
  });
  await_reviewer_decision = λ cycle job critique. ok approve;
  publish = none;
}

abbrev helped : Setting
helped = record {
  jobs = async_jobs (λ tick position. tick);
  activities = helpful;
  citations = λ body. 12 ∷ [];
  show_id = λ i. "id";
  fresh_id = λ position. 100;
  now = 0;
}

run_research_job-terminal_example :
    (outcome : ResearchOutcome) × ((run_research_job helped sample_job stored_job).0 ≡ ok outcome)
    × (is_terminal outcome.job.status ≡ true)
    × (helped.jobs.status_of (run_research_job helped sample_job stored_job).1 "acme" 1
        ≡ some outcome.job.status)
unfolding is_terminal get put
run_research_job-terminal_example =
    run_research_job-terminal helped sample_job stored_job created
      (async_jobs-IsReliable (λ tick position. tick)) refl refl

abbrev approved_job : ResearchJob
approved_job = record sample_job { status = completed; updated_at = 18 }

abbrev excerpt_record : EvidenceRecord
excerpt_record = record {
  content = one_excerpt;
  id = 12;
  job_id = 1;
  tenant_id = "acme";
  retrieved_at = 12;
}

abbrev written_report : ResearchReport
written_report = record {
  title = "t";
  sections = record { heading = "h"; body = "b" } ∷ [];
  is_partial = false;
  omitted_because = [];
}

abbrev approved_outcome : ResearchOutcome
approved_outcome = record {
  job = approved_job;
  report = some written_report;
  evidence = excerpt_record ∷ [];
  failure = none;
  publication = none;
}

approved_run : (run_research_job helped sample_job stored_job).0 ≡ ok approved_outcome
unfolding run_research_job secure_mcp_multi_agent_r.Workflow.Ports.Service.service_transition
    transition get put transition_to may_move
    secure_mcp_multi_agent_r.Application.Jobs.Reached.after_call
    secure_mcp_multi_agent_r.Workflow.Ports.Service.service_add_evidence
    secure_mcp_multi_agent_r.Workflow.Ports.Service.service_record_findings add_evidence
    secure_mcp_multi_agent_r.Base.length_within secure_mcp_multi_agent_r.Base.char_count
    check_evidence secure_mcp_multi_agent_r.Domain.Invocations.is_digest has_prefix get_or
    secure_mcp_multi_agent_r.Application.Findings.requires_reviewer derive_findings
    cited_evidence_ids unsupported_citations first_occurrences get_job record_findings
    replace_findings store_evidence update_job insert_sorted sort kept_detail kept_usage
    allowed_transitions finding_records
approved_run = refl

run_research_job-reviewed_example :
    (critique : CriticReview) × (written : ResearchJob) × IsCleared helped
      (excerpt_record ∷ [])
      critique
    × (is_empty (excerpt_record ∷ []) ≡ false)
    × (helpful.report written critique (excerpt_record ∷ []) ≡ ok written_report)
run_research_job-reviewed_example =
    run_research_job-reviewed helped sample_job stored_job approved_outcome written_report
      approved_run refl

run_research_job-completed_example :
    (report : ResearchReport) × (written : ResearchJob) × (some written_report ≡ some report)
    × (report.omitted_because ≡ [])
    × (all (λ i. elem i (12 ∷ [])) (cited_evidence_ids helped.citations report) ≡ true)
    × IsPublished helped written report [] none
run_research_job-completed_example =
    run_research_job-completed helped sample_job stored_job approved_outcome approved_run refl
