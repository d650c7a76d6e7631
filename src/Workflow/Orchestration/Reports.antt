-- ===== src/Workflow/Orchestration/Reports.antt =====
-- `run_research_job` of src/research_platform/workflow/orchestration.py: what stands behind a
-- report, and behind a completed job.
use secure_mcp_multi_agent_r.Base.{
  ℕ, zero, suc, Bool, true, false, ◌≡◌, refl, ◌⊎◌, inl, inr, arith, String, Option, none, some,
  List, [], ◌∷◌, ◌++◌, is_empty, Result, ok,
}
use secure_mcp_multi_agent_r.Domain.Status.{
  JobStatus, completed, partial, failed, analyzing, review_required, researching,
}
use secure_mcp_multi_agent_r.Domain.Job.{ResearchJob}
use secure_mcp_multi_agent_r.Domain.Evidence.{
  EvidenceRecord, approved, rejected, not_required, awaited,
}
use secure_mcp_multi_agent_r.Domain.Tasks.{ResearchTask}
use secure_mcp_multi_agent_r.Application.Findings.{requires_reviewer}
use secure_mcp_multi_agent_r.Application.Jobs.{ReportPublication}
use secure_mcp_multi_agent_r.Agents.Contracts.{AnalysisResult, CriticReview, ResearchReport}
use secure_mcp_multi_agent_r.Workflow.Ports.{
  Failure, ReviewerDecision, approve, reject, request_more_research,
}
use secure_mcp_multi_agent_r.Workflow.Outcomes.{Setting, ResearchOutcome, Reviewed, settled, ended}
use secure_mcp_multi_agent_r.Workflow.Orchestration.{
  M, ◌>>=◌, lift, move, collect, record_findings, decided, judged, review_once, give_up,
  review_loop, shortfalls_of,
}
use secure_mcp_multi_agent_r.Workflow.Orchestration.Gives.{
  Gives, Gives->>=, then_any, then_answer, Gives-move,
}

is_empty-++ : (xs ys : List EvidenceRecord) → is_empty xs ≡ false → is_empty (xs ++ ys) ≡ false
is_empty-++ [] ys h = ground arith
is_empty-++ (x ∷ xs) ys h = refl

module _ (g : Setting) where
  -- The critic's review of this evidence calls no reviewer in, or a reviewer approved it.
  abbrev pub IsCleared : List EvidenceRecord → CriticReview → Type 0
  IsCleared evidence critique =
      (cycle : ℕ) × (analyzed : ResearchJob) × (analysis : AnalysisResult) × (g.activities.critique
          cycle analyzed analysis evidence
        ≡ ok critique)
      × ((requires_reviewer critique.verdicts critique.coverage_gaps ≡ false)
          ⊎ ((waiting : ResearchJob) × (g.activities.await_reviewer_decision cycle waiting critique
                ≡ ok approve)))

  -- No report, and a job that is not completed.
  abbrev pub IsUnreported : ResearchOutcome → Type 0
  IsUnreported o = (o.report ≡ none) × ((o.job.status ≡ partial) ⊎ (o.job.status ≡ failed))

  abbrev pub IsReviewed : Reviewed → Type 0
  IsReviewed (settled job critique evidence unmet) =
      IsCleared evidence critique × (is_empty evidence ≡ false)
  IsReviewed (ended outcome) = IsUnreported outcome

  -- What was exported, when there is somewhere to export to.
  abbrev pub IsPublished :
      ResearchJob → ResearchReport → List String → Option ReportPublication → Type 0
  IsPublished job report shortfalls publication =
      ((g.activities.publish ≡ none) × (publication ≡ none))
      ⊎ ((export : ResearchJob → ResearchReport → List String → Result Failure ReportPublication)
          × (p : ReportPublication) × (g.activities.publish ≡ some export)
          × (export job report shortfalls ≡ ok p)
          × (publication ≡ some p))

  -- The outcome of a run that wrote a report.
  abbrev pub IsReported : ResearchOutcome → ResearchReport → Type 0
  IsReported o report =
      (critique : CriticReview) × (job : ResearchJob) × (unmet : List String) × (o.report
        ≡ some report)
      × IsCleared o.evidence critique
      × (is_empty o.evidence ≡ false)
      × (g.activities.report job critique o.evidence ≡ ok report)
      × IsPublished job report (shortfalls_of g unmet report o.evidence) o.publication
      × ((o.job.status ≡ completed) → shortfalls_of g unmet report o.evidence ≡ [])

  abbrev pub IsSound : ResearchOutcome → Type 0
  IsSound o = IsUnreported o ⊎ ((report : ResearchReport) × IsReported o report)

  -- A move that ends the run without a report.
  pub stops_with :
      {B : Type 0} (R : B → Type 0) (job : ResearchJob) (target : JobStatus)
      (detail : Option String) (f : ResearchJob → M g B)
      → ((moved : ResearchJob) → moved.status ≡ target → Gives g R (f moved))
      → Gives g R (◌>>=◌ g (move g job target detail) f)
  stops_with R job target detail f next =
      Gives->>= g (λ (moved : ResearchJob). moved.status ≡ target) R f next
        (move g job target detail) (Gives-move g job target detail)

  module _ (again : ResearchJob → M g Reviewed)
      (resumes : (job : ResearchJob) → Gives g IsReviewed (again job))
      (evidence : List EvidenceRecord) (unmet : List String)
      (some_evidence : is_empty evidence ≡ false) where
    Gives-decided :
        (cycle : ℕ) (analyzed waiting : ResearchJob) (analysis : AnalysisResult)
        (critique : CriticReview) (decision : ReviewerDecision)
        → g.activities.critique cycle analyzed analysis evidence ≡ ok critique
        → g.activities.await_reviewer_decision cycle waiting critique ≡ ok decision
        → Gives g IsReviewed
            (decided g again analyzed waiting analysis critique evidence unmet decision)
    unfolding decided
    Gives-decided cycle analyzed waiting analysis critique approve judged answer =
        then_any g IsReviewed (record_findings g analyzed analysis critique approved) _
          (λ _ s. ((cycle, analyzed, analysis, judged, inr (waiting, answer)), some_evidence))
    Gives-decided cycle analyzed waiting analysis critique reject judged answer =
        then_any g IsReviewed (record_findings g analyzed analysis critique rejected) _
          (λ _. stops_with IsReviewed waiting failed _ _ (λ moved e s. (refl, inr e)))
    Gives-decided cycle analyzed waiting analysis critique request_more_research judged answer =
        then_any g IsReviewed (move g waiting researching none) _ resumes

    Gives-judged :
        (cycle : ℕ) (analyzed : ResearchJob) (analysis : AnalysisResult) (critique : CriticReview)
        (needs_reviewer : Bool)
        → g.activities.critique cycle analyzed analysis evidence ≡ ok critique
        → requires_reviewer critique.verdicts critique.coverage_gaps ≡ needs_reviewer
        → Gives g IsReviewed
            (judged g again cycle analyzed analysis critique evidence unmet needs_reviewer)
    unfolding judged
    Gives-judged cycle analyzed analysis critique false answer e =
        then_any g IsReviewed (record_findings g analyzed analysis critique not_required) _
          (λ _ s. ((cycle, analyzed, analysis, answer, inl e), some_evidence))
    Gives-judged cycle analyzed analysis critique true answer e =
        then_any g IsReviewed (record_findings g analyzed analysis critique awaited) _ (λ _.
          then_any g IsReviewed (move g analyzed review_required none) _ (λ waiting.
            then_answer g IsReviewed (g.activities.await_reviewer_decision cycle waiting critique) _
              (λ decision. Gives-decided cycle analyzed waiting analysis critique decision answer)))

    Gives-review_once :
        (cycle : ℕ) (job : ResearchJob)
        → Gives g IsReviewed (review_once g again cycle job evidence unmet)
    unfolding review_once
    Gives-review_once cycle job = then_any g IsReviewed (move g job analyzing none) _ (λ analyzed.
        then_any g IsReviewed (lift g (g.activities.analyze cycle analyzed evidence)) _ (λ analysis.
          then_answer g IsReviewed (g.activities.critique cycle analyzed analysis evidence) _
            (λ critique answer.
              Gives-judged cycle analyzed analysis critique
                (requires_reviewer critique.verdicts critique.coverage_gaps) answer refl)))

  pub Gives-review_loop :
      (left cycle : ℕ) (job : ResearchJob) (tasks : List ResearchTask)
      (evidence : List EvidenceRecord) (unmet : List String)
      → is_empty evidence ≡ false
      → Gives g IsReviewed (review_loop g left cycle job tasks evidence unmet)
  unfolding review_loop give_up
  Gives-review_loop zero cycle job tasks evidence unmet h =
      Gives-review_once (give_up g evidence)
        (λ reopened. stops_with IsReviewed reopened partial _ _ (λ moved e s. (refl, inl e)))
        evidence unmet h cycle job
  Gives-review_loop (suc left) cycle job tasks evidence unmet h =
      Gives-review_once _
        (λ reopened. then_any g IsReviewed (collect g (suc cycle) 0 reopened tasks) _ (λ gathered.
          Gives-review_loop left (suc cycle) reopened tasks (evidence ++ gathered.0) gathered.1
            (is_empty-++ evidence gathered.0 h)))
        evidence unmet h cycle job
