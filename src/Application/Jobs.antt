-- ===== src/Application/Jobs.antt =====
-- src/research_platform/application/jobs.py: the in-memory repository and the service over it. A
-- method that raises leaves the store as it was; one that returns gives its value and the store.
pub mod Reached
pub mod Steps
pub mod Isolation
pub mod Trail
pub mod Endings
use secure_mcp_multi_agent_r.Base.{
  ℕ, suc, Bool, true, false, ◌&&◌, leb, ◌==◌, nat_eq, text_eq, pair_eq, List, [], ◌∷◌, ◌++◌, map,
  any, filter, String, length_within, Dict, get, put, get_or, has_key, sort, Option, none, some,
  Result, ok, err, guard, ◌>>=◌, ◌>>◌, if◌then◌else◌,
}
use secure_mcp_multi_agent_r.Domain.Status.{JobStatus, created}
use secure_mcp_multi_agent_r.Domain.Access.{AccessClass}
use secure_mcp_multi_agent_r.Domain.Job.{
  ResearchBudget, ResearchJob, JobUsage, no_usage, job_in_bounds, transition_to, with_checkpoint,
  InvalidStateTransition, invalid_state_transition,
}
use secure_mcp_multi_agent_r.Domain.Invocations.{ToolInvocation}
use secure_mcp_multi_agent_r.Domain.Evidence.{
  EvidenceRecordCreate, EvidenceRecord, EvidenceError, check_evidence, Finding, FindingRecord,
  FindingError, check_finding,
}

pub record ReportPublication : Type 0 where
  pub job_id : ℕ
  pub tenant_id : String
  pub published_at : ℕ
  pub report_key : String
  pub markdown_key : String
  pub manifest_key : String
  pub evidence_key : String
  pub report_sha256 : String
  pub is_partial : Bool
  pub drifted_evidence_ids : List ℕ
  pub report_access_class : AccessClass
  pub manifest_access_class : AccessClass

pub record ResearchJobCreate : Type 0 where
  pub question : String
  pub constraints : List String
  pub source_requirements : List String
  pub budget : ResearchBudget

-- `JobNotFoundError`, `InvalidStateTransition`, and pydantic's errors.
pub data JobError : Type 0 where
  job_not_found : (job_id : ℕ) → JobError
  not_allowed : (current target : JobStatus) → JobError
  invalid_job invalid_evidence invalid_finding : JobError

-- A tenant with a job's identifier.
abbrev pub Key : Type 0
Key = String × ℕ

pub record Store : Type 0 where
  pub jobs : Dict Key ResearchJob
  pub evidence : Dict Key (List EvidenceRecord)
  pub invocations : Dict Key (List ToolInvocation)
  pub findings : Dict Key (List FindingRecord)
  pub publications : Dict Key ReportPublication

unfoldable pub add_job : Store → ResearchJob → Store
add_job s job = record s { jobs = put s.jobs (job.tenant_id, job.id) job }

unfoldable pub get_job : Store → String → ℕ → Result JobError ResearchJob
get_job s tenant_id job_id = elim (get s.jobs (tenant_id, job_id)) [
  | none ↦ err (job_not_found job_id)
  | some job ↦ ok job
]

-- The jobs stored under one tenant, in the order of the dictionary.
unfoldable pub jobs_of : Dict Key ResearchJob → String → List ResearchJob
jobs_of [] tenant_id = []
jobs_of (((tenant, i), job) ∷ d) tenant_id =
    let rest = jobs_of d tenant_id in if tenant == tenant_id then job ∷ rest else rest

-- `sorted(..., reverse=True)` keeps jobs of the same time in their order.
abbrev pub newest_first : ResearchJob → ResearchJob → Bool
newest_first a b = leb b.created_at a.created_at

unfoldable pub list_jobs : Store → String → List ResearchJob
unfolding jobs_of
list_jobs s tenant_id = sort newest_first (jobs_of s.jobs tenant_id)

unfoldable pub update_job : Store → ResearchJob → Result JobError Store
update_job s job =
    if has_key s.jobs (job.tenant_id, job.id)
    then ok (record s { jobs = put s.jobs (job.tenant_id, job.id) job })
    else err (job_not_found job.id)

unfoldable pub store_evidence : Store → EvidenceRecord → Result JobError Store
unfolding get_job
store_evidence s e = do
  _ ← get_job s e.tenant_id e.job_id
  let key : Key = (e.tenant_id, e.job_id)
  ok (record s { evidence = put s.evidence key (get_or s.evidence key [] ++ e ∷ []) })

unfoldable pub list_evidence : Store → String → ℕ → Result JobError (List EvidenceRecord)
unfolding get_job
list_evidence s tenant_id job_id =
    get_job s tenant_id job_id >>= λ job. ok (get_or s.evidence (tenant_id, job_id) [])

-- A trail in which the identifier stands is not empty, so `setdefault` changes nothing there.
unfoldable pub record_invocation : Store → ToolInvocation → Store
record_invocation s i =
    let key : Key = (i.tenant_id, i.job_id) in
    let recorded = get_or s.invocations key [] in
    if any (λ (j : ToolInvocation). j.id == i.id) recorded
    then s
    else record s { invocations = put s.invocations key (recorded ++ i ∷ []) }

abbrev pub oldest_first : ToolInvocation → ToolInvocation → Bool
oldest_first a b = leb a.started_at b.started_at

unfoldable pub trail : Store → String → ℕ → List ToolInvocation
trail s tenant_id job_id = sort oldest_first (get_or s.invocations (tenant_id, job_id) [])

unfoldable pub replace_findings : Store → String → ℕ → List FindingRecord → Result JobError Store
unfolding get_job
replace_findings s tenant_id job_id findings = get_job s tenant_id job_id >>= λ job.
    ok (record s { findings = put s.findings (tenant_id, job_id) findings })

unfoldable pub list_findings : Store → String → ℕ → Result JobError (List FindingRecord)
unfolding get_job
list_findings s tenant_id job_id =
    get_job s tenant_id job_id >>= λ job. ok (get_or s.findings (tenant_id, job_id) [])

unfoldable pub record_publication : Store → ReportPublication → Result JobError Store
unfolding get_job
record_publication s p = get_job s p.tenant_id p.job_id >>= λ job.
    ok (record s { publications = put s.publications (p.tenant_id, p.job_id) p })

unfoldable pub get_publication : Store → String → ℕ → Result JobError (Option ReportPublication)
unfolding get_job
get_publication s tenant_id job_id =
    get_job s tenant_id job_id >>= λ job. ok (get s.publications (tenant_id, job_id))

abbrev pub new_job :
    (tenant_id requester_id : String)
    → ResearchJobCreate
    → (clearance : AccessClass) → (fresh_id now : ℕ) → ResearchJob
new_job tenant_id requester_id command clearance fresh_id now = record {
  id = fresh_id;
  tenant_id = tenant_id;
  requester_id = requester_id;
  question = command.question;
  constraints = command.constraints;
  source_requirements = command.source_requirements;
  budget = command.budget;
  clearance = clearance;
  usage = no_usage;
  status = created;
  status_detail = none;
  workflow_id = none;
  workflow_run_id = none;
  created_at = now;
  updated_at = now;
}

-- `ResearchJobService.create`, with the identifier and the time that the job draws.
unfoldable pub create :
    Store
    → (tenant_id requester_id : String) → ResearchJobCreate
    → (clearance : AccessClass) → (fresh_id now : ℕ) → Result JobError Store
unfolding add_job
create s tenant_id requester_id command clearance fresh_id now =
    let job = new_job tenant_id requester_id command clearance fresh_id now in
    guard (job_in_bounds job) invalid_job >> ok (add_job s job)

unfoldable pub transition :
    Store
    → String
    → ℕ
    → JobStatus
    → Option String
    → Option JobUsage
    → (now : ℕ) → Result JobError Store
unfolding get_job update_job
transition s tenant_id job_id target detail usage now = get_job s tenant_id job_id >>= λ job.
    elim (transition_to job target detail usage now) [
      | err (invalid_state_transition current goal) ↦ err (not_allowed current goal)
      | ok next ↦ update_job s next
    ]

unfoldable pub record_checkpoint :
    Store → String → ℕ → (workflow_id workflow_run_id : String) (now : ℕ) → Result JobError Store
unfolding get_job update_job
record_checkpoint s tenant_id job_id workflow_id workflow_run_id now =
    get_job s tenant_id job_id >>= λ job.
    update_job s (with_checkpoint job workflow_id workflow_run_id now)

unfoldable pub add_evidence :
    Store → String → ℕ → EvidenceRecordCreate → (fresh_id now : ℕ) → Result JobError Store
unfolding get_job store_evidence
add_evidence s tenant_id job_id command fresh_id now = do
  _ ← get_job s tenant_id job_id
  guard (length_within 1 100 tenant_id) invalid_evidence
  elim (check_evidence command now) [
    | err e ↦ err invalid_evidence
    | ok content ↦ store_evidence s (record {
      content = content;
      id = fresh_id;
      job_id = job_id;
      tenant_id = tenant_id;
      retrieved_at = now;
    })
  ]

unfoldable pub list_invocations : Store → String → ℕ → Result JobError (List ToolInvocation)
unfolding get_job trail
list_invocations s tenant_id job_id =
    get_job s tenant_id job_id >>= λ job. ok (trail s tenant_id job_id)

-- The records that `record_findings` builds; `fresh n` is the identifier the n-th one draws.
unfoldable pub finding_records :
    String → ℕ → (fresh : ℕ → ℕ) (n now : ℕ) → List Finding → Result JobError (List FindingRecord)
finding_records tenant_id job_id fresh n now [] = ok []
finding_records tenant_id job_id fresh n now (f ∷ fs) =
    let rest = finding_records tenant_id job_id fresh (suc n) now fs in
    elim (check_finding f) [
      | err e ↦ err invalid_finding
      | ok finding ↦ do
        guard (length_within 1 100 tenant_id) invalid_finding
        records ← rest
        ok (
            record {
              finding = finding;
              id = fresh n;
              job_id = job_id;
              tenant_id = tenant_id;
              recorded_at = now;
            }
            ∷ records)
    ]

unfoldable pub record_findings :
    Store → String → ℕ → (fresh : ℕ → ℕ) (now : ℕ) → List Finding → Result JobError Store
unfolding get_job finding_records replace_findings
record_findings s tenant_id job_id fresh now findings = do
  _ ← get_job s tenant_id job_id
  records ← finding_records tenant_id job_id fresh 0 now findings
  replace_findings s tenant_id job_id records
