-- ===== src/Workflow/Ports.antt =====
-- What `run_research_job` of src/research_platform/workflow/orchestration.py is given: the slice of
-- the job service behind `JobsPort`, and the agents' activities.
pub mod Service
use secure_mcp_multi_agent_r.Base.{
  ℕ, ◌≡◌, Bool, true, false, String, Option, some, List, Result, ok, err, is_ok,
}
use secure_mcp_multi_agent_r.Domain.Status.{JobStatus, may_move}
use secure_mcp_multi_agent_r.Domain.Job.{ResearchJob}
use secure_mcp_multi_agent_r.Domain.Tasks.{ResearchTask}
use secure_mcp_multi_agent_r.Domain.Evidence.{EvidenceRecordCreate, EvidenceRecord, Finding}
use secure_mcp_multi_agent_r.Application.Jobs.{ReportPublication}
use secure_mcp_multi_agent_r.Agents.Contracts.{
  ResearchPlan, EvidenceSubmission, AnalysisResult, CriticReview, ResearchReport,
}

-- One exception object: its attributes `type` and `message`, if any, its class and its text.
pub record Raised : Type 0 where
  pub type_ : Option String
  pub class_name : String
  pub message : Option String
  pub rendering : String

-- An exception that reaches the orchestrator, with its attribute `cause`.
pub record Failure : Type 0 where
  pub itself : Raised
  pub cause : Option Raised

-- `JobsPort`. The laws say what the orchestrator relies on: a transition that returns has moved the
-- job along the status machine, and everything else leaves the status as it was.
pub record JobsPort : Type 1 where
  pub State : Type 0
  pub status_of : State → String → ℕ → Option JobStatus
  pub transition :
      State → String → ℕ → JobStatus → Option String → Result Failure ResearchJob × State
  pub add_evidence :
      State → String → ℕ → EvidenceRecordCreate → Result Failure EvidenceRecord × State
  pub record_findings : State → String → ℕ → List Finding → Result Failure (Unit {0}) × State
  pub moved :
      (s : State) (t : String) (i : ℕ) (target : JobStatus) (detail : Option String)
      (job : ResearchJob)
      → (transition s t i target detail).0 ≡ ok job
      → (job.tenant_id ≡ t)
        × (job.id ≡ i)
        × (job.status ≡ target)
        × (status_of (transition s t i target detail).1 t i ≡ some target)
  pub refused :
      (s : State) (t : String) (i : ℕ) (target : JobStatus) (detail : Option String)
      → is_ok (transition s t i target detail).0 ≡ false
      → status_of (transition s t i target detail).1 t i ≡ status_of s t i
  pub add_evidence_keeps :
      (s : State) (t : String) (i : ℕ) (e : EvidenceRecordCreate)
      → status_of (add_evidence s t i e).1 t i ≡ status_of s t i
  pub record_findings_keeps :
      (s : State) (t : String) (i : ℕ) (fs : List Finding)
      → status_of (record_findings s t i fs).1 t i ≡ status_of s t i

-- A port that never refuses what the status machine allows.
pub record IsReliable (p : JobsPort) : Type 0 where
  pub accepts :
      (s : p.State) (t : String) (i : ℕ) (old target : JobStatus) (detail : Option String)
      → p.status_of s t i ≡ some old
      → may_move old target ≡ true
      → is_ok (p.transition s t i target detail).0 ≡ true

-- What a reviewer does with a job the critic sent for review.
pub data ReviewerDecision : Type 0 where
  approve request_more_research reject : ReviewerDecision

-- `OrchestrationActivities`, which may answer differently on each call: `cycle` counts the review
-- cycles, and `position` the tasks. `none` stands for no export.
pub record OrchestrationActivities : Type 0 where
  pub plan : ResearchJob → Result Failure ResearchPlan
  pub research :
      (cycle position : ℕ) → ResearchJob → ResearchTask → Result Failure EvidenceSubmission
  pub analyze : (cycle : ℕ) → ResearchJob → List EvidenceRecord → Result Failure AnalysisResult
  pub critique :
      (cycle : ℕ) → ResearchJob → AnalysisResult → List EvidenceRecord → Result Failure CriticReview
  pub report : ResearchJob → CriticReview → List EvidenceRecord → Result Failure ResearchReport
  pub await_reviewer_decision :
      (cycle : ℕ) → ResearchJob → CriticReview → Result Failure ReviewerDecision
  pub publish :
      Option (ResearchJob → ResearchReport → List String → Result Failure ReportPublication)
