-- ===== src/Application/Jobs/Reached.antt =====
-- About the service of src/research_platform/application/jobs.py: its calls, one after another.
use secure_mcp_multi_agent_r.Base.{
  ℕ, Bool, false, ◌==◌, nat_eq, text_eq, pair_eq, List, [], ◌∷◌, String, Option, Result, ok, err,
}
use secure_mcp_multi_agent_r.Domain.Status.{JobStatus}
use secure_mcp_multi_agent_r.Domain.Access.{AccessClass}
use secure_mcp_multi_agent_r.Domain.Job.{JobUsage}
use secure_mcp_multi_agent_r.Domain.Invocations.{ToolInvocation}
use secure_mcp_multi_agent_r.Domain.Evidence.{EvidenceRecordCreate, Finding}
use secure_mcp_multi_agent_r.Application.Jobs.{
  Store, JobError, ReportPublication, ResearchJobCreate, create, transition, record_checkpoint,
  add_evidence, record_invocation, record_findings, record_publication,
}

pub data ServiceCall : Type 0 where
  creating :
      (tenant_id requester_id : String)
      → ResearchJobCreate
      → AccessClass
      → (fresh_id now : ℕ) → ServiceCall
  moving :
      (tenant_id : String) (job_id : ℕ)
      → JobStatus
      → Option String
      → Option JobUsage
      → (now : ℕ) → ServiceCall
  marking :
      (tenant_id : String) (job_id : ℕ) (workflow_id workflow_run_id : String) (now : ℕ)
      → ServiceCall
  citing :
      (tenant_id : String) (job_id : ℕ) → EvidenceRecordCreate → (fresh_id now : ℕ) → ServiceCall
  auditing : ToolInvocation → ServiceCall
  judging : (tenant_id : String) (job_id : ℕ) (fresh : ℕ → ℕ) (now : ℕ) → List Finding → ServiceCall
  publishing : ReportPublication → ServiceCall

abbrev pub tenant_of : ServiceCall → String
tenant_of (creating tenant_id requester_id command clearance fresh_id now) = tenant_id
tenant_of (moving tenant_id job_id target detail usage now) = tenant_id
tenant_of (marking tenant_id job_id workflow_id workflow_run_id now) = tenant_id
tenant_of (citing tenant_id job_id command fresh_id now) = tenant_id
tenant_of (auditing i) = i.tenant_id
tenant_of (judging tenant_id job_id fresh now findings) = tenant_id
tenant_of (publishing p) = p.tenant_id

-- Whether the call draws this identifier for a new job.
abbrev pub draws : ServiceCall → ℕ → Bool
draws (creating tenant_id requester_id command clearance fresh_id now) i = fresh_id == i
draws _ i = false

-- The store behind a call that may raise.
abbrev pub kept : Store → Result JobError Store → Store
kept s (ok s') = s'
kept s (err e) = s

unfoldable pub after_call : Store → ServiceCall → Store
after_call s (creating tenant_id requester_id command clearance fresh_id now) =
    kept s (create s tenant_id requester_id command clearance fresh_id now)
after_call s (moving tenant_id job_id target detail usage now) =
    kept s (transition s tenant_id job_id target detail usage now)
after_call s (marking tenant_id job_id workflow_id workflow_run_id now) =
    kept s (record_checkpoint s tenant_id job_id workflow_id workflow_run_id now)
after_call s (citing tenant_id job_id command fresh_id now) =
    kept s (add_evidence s tenant_id job_id command fresh_id now)
after_call s (auditing i) = record_invocation s i
after_call s (judging tenant_id job_id fresh now findings) =
    kept s (record_findings s tenant_id job_id fresh now findings)
after_call s (publishing p) = kept s (record_publication s p)

unfoldable pub after_calls : Store → List ServiceCall → Store
after_calls s [] = s
after_calls s (c ∷ cs) = after_calls (after_call s c) cs
