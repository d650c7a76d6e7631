-- ===== src/Workflow/Orchestration.antt =====
-- src/research_platform/workflow/orchestration.py: one job from its creation to a terminal status.
-- Metrics and spans are left out.
pub mod Hoare
pub mod Statuses
pub mod Reaching
pub mod Terminal
pub mod Gives
pub mod Reports
pub mod Sound
pub mod Completion
use secure_mcp_multi_agent_r.Base.{
  ℕ, zero, suc, true, false, leb, ◌==◌, Bool, nat_eq, text_eq, List, [], ◌∷◌, ◌++◌, map, is_empty,
  sort, String, has_prefix, Option, none, some, Result, ok, err, if◌then◌else◌,
}
use Prim.Native.String.{◌++◌ as ◌<>◌}
use secure_mcp_multi_agent_r.Domain.Status.{
  JobStatus, planning, researching, analyzing, review_required, reporting, completed, failed,
  partial,
}
use secure_mcp_multi_agent_r.Domain.Job.{ResearchJob}
use secure_mcp_multi_agent_r.Domain.Tasks.{researcher, role_eq, ResearchTask, pending}
use secure_mcp_multi_agent_r.Domain.Evidence.{
  EvidenceRecordCreate, EvidenceRecord, Finding, FindingError, ReviewerStatus, not_required,
  awaited, approved, rejected,
}
use secure_mcp_multi_agent_r.Application.Findings.{
  derive_findings, requires_reviewer, first_occurrences,
}
use secure_mcp_multi_agent_r.Application.Jobs.{ReportPublication}
use secure_mcp_multi_agent_r.Agents.Contracts.{
  PlannedTask, AnalysisResult, CriticReview, ResearchReport, EvidenceSubmission,
  unsupported_citations,
}
use secure_mcp_multi_agent_r.Workflow.Ports.{
  Raised, Failure, JobsPort, OrchestrationActivities, ReviewerDecision, approve,
  request_more_research, reject,
}
use secure_mcp_multi_agent_r.Workflow.Outcomes.{
  max_review_cycles, ResearchOutcome, describe, join_texts, validation_failure, task_from, Reviewed,
  without_report, Setting, settled, ended,
}

module _ (g : Setting) where
  -- A call with the port's state: it returns or raises, and leaves a state.
  abbrev pub M : Type 0 → Type 0
  M A = g.jobs.State → Result Failure A × g.jobs.State

  -- What follows a call: the error ends the chain and keeps the state it left.
  abbrev pub continue_with :
      {A B : Type 0} → (A → M B) → Result Failure A × g.jobs.State → Result Failure B × g.jobs.State
  continue_with f (ok a, s) = f a s
  continue_with f (err e, s) = (err e, s)

  infixl 10 ◌>>=◌ ◌>>◌
  abbrev pub ◌>>=◌ : {A B : Type 0} → M A → (A → M B) → M B
  ◌>>=◌ m f s = continue_with f (m s)

  abbrev pub ◌>>◌ : {A B : Type 0} → M A → M B → M B
  m >> n = m >>= λ a. n

  -- An activity, or a validation, that does not touch the port.
  abbrev pub lift : {A : Type 0} → Result Failure A → M A
  lift answer s = (answer, s)

  abbrev pub return : {A : Type 0} → A → M A
  return a s = (ok a, s)

  abbrev pub move : ResearchJob → JobStatus → Option String → M ResearchJob
  move job target detail s = g.jobs.transition s job.tenant_id job.id target detail

  unfoldable pub store_findings : ResearchJob → Result FindingError (List Finding) → M (Unit {0})
  store_findings job (err e) = lift (err validation_failure)
  store_findings job (ok findings) = λ s. g.jobs.record_findings s job.tenant_id job.id findings

  unfoldable pub record_findings :
      ResearchJob → AnalysisResult → CriticReview → ReviewerStatus → M (Unit {0})
  unfolding store_findings
  record_findings job analysis critique reviewer_status =
      store_findings job (derive_findings analysis.findings critique.verdicts reviewer_status)

  -- The tasks of the researchers.
  unfoldable pub researcher_tasks : ResearchJob → ℕ → List PlannedTask → List ResearchTask
  researcher_tasks job position [] = []
  researcher_tasks job position (p ∷ ps) =
      if p.assigned_agent == researcher
      then task_from p job (g.fresh_id position) g.now ∷ researcher_tasks job (suc position) ps
      else researcher_tasks job position ps

  -- The loop over the records of one submission.
  unfoldable pub store_records : ResearchJob → List EvidenceRecordCreate → M (List EvidenceRecord)
  store_records job [] = return []
  store_records job (e ∷ es) = do
    stored ← λ s. g.jobs.add_evidence s job.tenant_id job.id e
    rest ← store_records job es
    return (stored ∷ rest)

  -- `task.evidence_requirements or [task.objective]`
  abbrev pub wanted : ResearchTask → List String
  wanted task =
      if is_empty task.evidence_requirements
      then task.objective ∷ []
      else task.evidence_requirements

  -- The body of the loop over the results; `rest` is what the other tasks bring.
  unfoldable pub keep_result :
      ResearchJob
      → ResearchTask
      → (rest : M (List EvidenceRecord × List String)) → Result Failure EvidenceSubmission
      → M (List EvidenceRecord × List String)
  unfolding store_records
  keep_result job task rest (err e) = do
    (records, unmet) ← rest
    return (records, wanted task ++ unmet)
  keep_result job task rest (ok result) = do
    stored ← store_records job result.records
    (records, unmet) ← rest
    return (stored ++ records, result.unmet_requirements ++ unmet)

  -- The loop over the results of the gathered research, in the order of the tasks.
  unfoldable pub collect :
      (cycle position : ℕ) → ResearchJob → List ResearchTask → M (List EvidenceRecord × List String)
  unfolding keep_result
  collect cycle position job [] = return ([], [])
  collect cycle position job (task ∷ tasks) =
      keep_result job task (collect cycle (suc position) job tasks)
        (g.activities.research cycle position job task)

  -- What the reviewer's decision leads to; `again` is what follows the move back to researching.
  unfoldable pub decided :
      (again : ResearchJob → M Reviewed) (analyzed waiting : ResearchJob)
      → AnalysisResult
      → CriticReview
      → List EvidenceRecord
      → List String
      → ReviewerDecision
      → M Reviewed
  unfolding record_findings
  decided again analyzed waiting analysis critique evidence unmet approve = do
    record_findings analyzed analysis critique approved
    return (settled waiting critique evidence unmet)
  decided again analyzed waiting analysis critique evidence unmet reject = do
    record_findings analyzed analysis critique rejected
    stopped ← move waiting failed (some "rejected by the reviewer")
    return (ended (without_report evidence stopped))
  decided again analyzed waiting analysis critique evidence unmet request_more_research = do
    reopened ← move waiting researching none
    again reopened

  -- What follows the critique, by `critique.requires_reviewer`.
  unfoldable pub judged :
      (again : ResearchJob → M Reviewed) (cycle : ℕ) (analyzed : ResearchJob)
      → AnalysisResult
      → CriticReview
      → List EvidenceRecord
      → List String
      → (needs_reviewer : Bool) → M Reviewed
  unfolding record_findings decided
  judged again cycle analyzed analysis critique evidence unmet false = do
    record_findings analyzed analysis critique not_required
    return (settled analyzed critique evidence unmet)
  judged again cycle analyzed analysis critique evidence unmet true = do
    record_findings analyzed analysis critique awaited
    waiting ← move analyzed review_required none
    decision ← lift (g.activities.await_reviewer_decision cycle waiting critique)
    decided again analyzed waiting analysis critique evidence unmet decision

  -- The body of the `while True` loop.
  unfoldable pub review_once :
      (again : ResearchJob → M Reviewed) (cycle : ℕ)
      → ResearchJob
      → List EvidenceRecord
      → List String
      → M Reviewed
  unfolding judged
  review_once again cycle job evidence unmet = do
    analyzed ← move job analyzing none
    analysis ← lift (g.activities.analyze cycle analyzed evidence)
    critique ← lift (g.activities.critique cycle analyzed analysis evidence)
    judged again cycle analyzed analysis critique evidence unmet
        (requires_reviewer critique.verdicts critique.coverage_gaps)

  -- What follows one request too many.
  unfoldable pub give_up : List EvidenceRecord → ResearchJob → M Reviewed
  give_up evidence reopened = do
    stopped ← move reopened partial (some "the reviewer asked for more research more than 2 times")
    return (ended (without_report evidence stopped))

  -- The loop, by the review cycles that are left.
  unfoldable pub review_loop :
      (left cycle : ℕ)
      → ResearchJob
      → List ResearchTask
      → List EvidenceRecord
      → List String
      → M Reviewed
  unfolding review_once collect give_up
  review_loop zero cycle job tasks evidence unmet =
      review_once (give_up evidence) cycle job evidence unmet
  review_loop (suc left) cycle job tasks evidence unmet =
      review_once
        (λ reopened. do
          (more, unmet_now) ← collect (suc cycle) 0 reopened tasks
          review_loop left (suc cycle) reopened tasks (evidence ++ more) unmet_now)
        cycle job evidence unmet

  -- `missing_citations`, in the order of `sorted(..., key=str)`: a UUID's text orders as its
  -- number.
  unfoldable pub missing_citations : ResearchReport → List EvidenceRecord → List ℕ
  unfolding first_occurrences unsupported_citations
  missing_citations report evidence = sort leb (
      first_occurrences
        (unsupported_citations g.citations report (map (λ (r : EvidenceRecord). r.id) evidence)))

  unfoldable pub shortfalls_of : List String → ResearchReport → List EvidenceRecord → List String
  unfolding missing_citations
  shortfalls_of unmet report evidence =
      map (λ requirement. "unmet requirement: " <> requirement) unmet
      ++ map (λ reason. "omitted: " <> reason) report.omitted_because
      ++ map (λ i. "cites unrecorded evidence " <> g.show_id i) (missing_citations report evidence)

  unfoldable pub publish_report :
      Option (ResearchJob → ResearchReport → List String → Result Failure ReportPublication)
      → ResearchJob
      → ResearchReport
      → List String
      → M (Option ReportPublication)
  publish_report none job report shortfalls = return none
  publish_report (some export) job report shortfalls = do
    publication ← lift (export job report shortfalls)
    return (some publication)

  -- The last transition.
  unfoldable pub close : ResearchJob → (shortfalls : List String) → M ResearchJob
  unfolding join_texts
  close job [] = move job completed none
  close job (s ∷ ss) = move job partial (some (join_texts (s ∷ ss)))

  -- What follows the loop.
  unfoldable pub conclude :
      ResearchJob → CriticReview → List EvidenceRecord → List String → M ResearchOutcome
  unfolding shortfalls_of publish_report close
  conclude job critique evidence unmet = do
    reporting_job ← move job reporting none
    report ← lift (g.activities.report reporting_job critique evidence)
    publication ←
        publish_report g.activities.publish reporting_job report
          (shortfalls_of unmet report evidence)
    final ← close reporting_job (shortfalls_of unmet report evidence)
    return record {
      job = final;
      report = some report;
      evidence = evidence;
      failure = none;
      publication = publication;
    }

  unfoldable pub finish_reviewed : Reviewed → M ResearchOutcome
  unfolding conclude
  finish_reviewed (settled job critique evidence unmet) = conclude job critique evidence unmet
  finish_reviewed (ended outcome) = return outcome

  -- What follows the first round of research.
  unfoldable pub with_evidence :
      ResearchJob → List ResearchTask → List EvidenceRecord → List String → M ResearchOutcome
  unfolding review_loop finish_reviewed
  with_evidence job tasks [] unmet = do
    stopped ← move job partial (some "no evidence could be collected")
    return (without_report [] stopped)
  with_evidence job tasks (e ∷ es) unmet = do
    reviewed ← review_loop max_review_cycles 0 job tasks (e ∷ es) unmet
    finish_reviewed reviewed

  -- `_run_research_job`.
  unfoldable pub pipeline : ResearchJob → M ResearchOutcome
  unfolding collect researcher_tasks with_evidence
  pipeline job = do
    planned ← move job planning none
    plan ← lift (g.activities.plan planned)
    started ← move planned researching none
    (evidence, unmet) ← collect 0 0 started (researcher_tasks started 0 plan.tasks)
    with_evidence started (researcher_tasks started 0 plan.tasks) evidence unmet

  abbrev pub stopped_by : String → ResearchJob → ResearchOutcome
  stopped_by reason job = record {
    job = job;
    report = none;
    evidence = [];
    failure = some reason;
    publication = none;
  }

  abbrev pub fail_as : ResearchJob → JobStatus → Failure → M ResearchOutcome
  unfolding describe
  fail_as job target e = do
    stopped ← move job target (some (describe e))
    return (stopped_by (describe e) stopped)

  abbrev pub handled :
      {A : Type 0}
      → (Failure → M A)
      → Result Failure A × g.jobs.State
      → Result Failure A × g.jobs.State
  handled h (ok a, s) = (ok a, s)
  handled h (err e, s) = h e s

  abbrev pub or_else : {A : Type 0} → M A → (Failure → M A) → M A
  or_else m h s = handled h (m s)

  -- `_fail`: an error that cannot be recorded is raised.
  unfoldable pub fail : ResearchJob → Failure → M ResearchOutcome
  unfolding describe
  fail job e =
      let as_failed : M ResearchOutcome = or_else (fail_as job failed e) (λ _. lift (err e)) in
      if has_prefix (describe e) "BudgetExhausted"
      then or_else (fail_as job partial e) (λ _. as_failed)
      else as_failed

  unfoldable pub run_research_job : ResearchJob → M ResearchOutcome
  unfolding pipeline fail
  run_research_job job = or_else (pipeline job) (fail job)
