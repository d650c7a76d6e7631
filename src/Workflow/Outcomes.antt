-- ===== src/Workflow/Outcomes.antt =====
-- src/research_platform/workflow/orchestration.py: what a run is given, and what it produces.
-- Identifiers and times that a task draws are arguments.
use secure_mcp_multi_agent_r.Base.{
  ℕ, ◌==◌, nat_eq, text_eq, List, [], ◌∷◌, String, Option, none, some, if◌then◌else◌,
}
use Prim.Native.String.{◌++◌ as ◌<>◌}
use secure_mcp_multi_agent_r.Domain.Job.{ResearchJob}
use secure_mcp_multi_agent_r.Domain.Tasks.{role_eq, ResearchTask, pending}
use secure_mcp_multi_agent_r.Domain.Evidence.{EvidenceRecord}
use secure_mcp_multi_agent_r.Application.Jobs.{ReportPublication}
use secure_mcp_multi_agent_r.Agents.Contracts.{PlannedTask, CriticReview, ResearchReport}
use secure_mcp_multi_agent_r.Workflow.Ports.{Raised, Failure, JobsPort, OrchestrationActivities}

abbrev pub max_review_cycles : ℕ
max_review_cycles = 2

pub record ResearchOutcome : Type 0 where
  pub job : ResearchJob
  pub report : Option ResearchReport
  pub evidence : List EvidenceRecord
  pub failure : Option String
  pub publication : Option ReportPublication

-- `getattr(cause, name, None) or default`
abbrev given_or : Option String → String → String
given_or none default = default
given_or (some s) default = if s == "" then default else s

unfoldable pub describe : Failure → String
describe f =
    let cause : Raised = elim f.cause [ none ↦ f.itself | some c ↦ c ] in
    given_or cause.type_ cause.class_name <> ": " <> given_or cause.message cause.rendering

-- `"; ".join(texts)`
unfoldable pub join_texts : List String → String
join_texts [] = ""
join_texts (t ∷ []) = t
join_texts (t ∷ u ∷ rest) = t <> "; " <> join_texts (u ∷ rest)

-- A pydantic error that the module does not catch; its text is left out.
abbrev pub validation_failure : Failure
validation_failure = record {
  itself = record { type_ = none; class_name = "ValidationError"; message = none; rendering = "" };
  cause = none;
}

-- `_task_from`. The bounds of a planned task and of a job are within those of a task, which so
-- passes the checks of its model.
unfoldable pub task_from : PlannedTask → ResearchJob → (fresh_id now : ℕ) → ResearchTask
task_from planned job fresh_id now = record {
  id = fresh_id;
  job_id = job.id;
  tenant_id = job.tenant_id;
  objective = planned.objective;
  assigned_agent = planned.assigned_agent;
  dependencies = [];
  evidence_requirements = planned.evidence_requirements;
  source_restrictions = planned.source_restrictions;
  state = pending;
  retry_count = 0;
  max_retries = 3;
  created_at = now;
  updated_at = now;
}

-- What the loop leaves for the report, or the outcome that ends the run early.
pub data Reviewed : Type 0 where
  settled : ResearchJob → CriticReview → List EvidenceRecord → List String → Reviewed
  ended : ResearchOutcome → Reviewed

abbrev pub without_report : List EvidenceRecord → ResearchJob → ResearchOutcome
without_report evidence job = record {
  job = job;
  report = none;
  evidence = evidence;
  failure = none;
  publication = none;
}

-- What the run is given besides the job: the port, the activities, how a report's citations are
-- read, how an identifier is written, and the identifiers and the time that the tasks draw.
pub record Setting : Type 1 where
  pub jobs : JobsPort
  pub activities : OrchestrationActivities
  pub citations : String → List ℕ
  pub show_id : ℕ → String
  pub fresh_id : (position : ℕ) → ℕ
  pub now : ℕ
