-- ===== src/Workflow/Orchestration/Terminal.antt =====
-- `run_research_job` of src/research_platform/workflow/orchestration.py ends every job.
use secure_mcp_multi_agent_r.Base.{
  ℕ, true, false, ◌≡◌, refl, String, Option, none, some, List, [], ◌∷◌, Result, ok, err, is_ok,
  has_prefix, if◌then◌else◌, arith,
}
use secure_mcp_multi_agent_r.Domain.Status.{
  JobStatus, is_terminal, completed, partial, failed, planning, researching, reporting,
  may_move-failed,
}
use secure_mcp_multi_agent_r.Domain.Job.{ResearchJob}
use secure_mcp_multi_agent_r.Domain.Evidence.{EvidenceRecord}
use secure_mcp_multi_agent_r.Domain.Tasks.{ResearchTask}
use secure_mcp_multi_agent_r.Application.Jobs.{ReportPublication}
use secure_mcp_multi_agent_r.Agents.Contracts.{CriticReview, ResearchReport}
use secure_mcp_multi_agent_r.Workflow.Ports.{Failure, IsReliable}
use secure_mcp_multi_agent_r.Workflow.Outcomes.{
  Setting, ResearchOutcome, Reviewed, settled, ended, max_review_cycles, describe,
}
use secure_mcp_multi_agent_r.Workflow.Orchestration.{
  lift, move, collect, researcher_tasks, publish_report, close, conclude, finish_reviewed,
  with_evidence, pipeline, review_loop, shortfalls_of, fail, fail_as, or_else, run_research_job,
}
use secure_mcp_multi_agent_r.Workflow.Orchestration.Hoare.{Ends, After, Ends->>=, Ends-or_else}
use secure_mcp_multi_agent_r.Workflow.Orchestration.Statuses.{
  IsAbout, Settled, then-Working, then_going, then_lift, Ends-move_off,
}
use secure_mcp_multi_agent_r.Workflow.Orchestration.Reaching.{
  W, AfterReview, Over, Concludes, then_over, Ends-collect, Ends-review_loop,
}

module _ (g : Setting) (t : String) (i : ℕ) where
  Ends-publish_report :
      (publish : Option
        (ResearchJob → ResearchReport → List String → Result Failure ReportPublication))
      (job : ResearchJob) (report : ResearchReport) (shortfalls : List String)
      → Ends g
          (λ (_ : Option ReportPublication). W g t i)
          (W g t i)
          (W g t i)
          (publish_report g publish job report shortfalls)
  unfolding publish_report
  Ends-publish_report none job report shortfalls = λ s w. w
  Ends-publish_report (some export) job report shortfalls =
      then_lift g t i _ (export job report shortfalls) _ (λ publication s w. w)

  Ends-close :
      (job : ResearchJob) (shortfalls : List String)
      → IsAbout g t i job
      → Ends g (Settled g t i) (W g t i) (W g t i) (close g job shortfalls)
  unfolding close is_terminal
  Ends-close job [] about = Ends-move_off g t i job completed none refl about
  Ends-close job (s ∷ ss) about = Ends-move_off g t i job partial _ refl about

  Ends-conclude :
      (job : ResearchJob) (critique : CriticReview) (evidence : List EvidenceRecord)
      (unmet : List String)
      → IsAbout g t i job
      → Concludes g t i (conclude g job critique evidence unmet)
  unfolding conclude is_terminal
  Ends-conclude job critique evidence unmet about =
      then_going g t i (Over g t i) job reporting none _ refl about (λ written about1.
        then_lift g t i (Over g t i) (g.activities.report written critique evidence) _ (λ report.
          then-Working g t i (Over g t i)
            (publish_report g g.activities.publish written report
              (shortfalls_of g unmet report evidence))
            _
            (Ends-publish_report g.activities.publish written report
              (shortfalls_of g unmet report evidence))
            (λ publication.
              Ends->>= g (Settled g t i) (Over g t i) (W g t i) _ (λ final s h. h) (W g t i)
                (close g written (shortfalls_of g unmet report evidence))
                (Ends-close written (shortfalls_of g unmet report evidence) about1))))

  Ends-finish_reviewed :
      (reviewed : Reviewed)
      → Ends g (Over g t i) (W g t i) (AfterReview g t i reviewed) (finish_reviewed g reviewed)
  unfolding finish_reviewed
  Ends-finish_reviewed (settled job critique evidence unmet) s (about, w) =
      Ends-conclude job critique evidence unmet about s w
  Ends-finish_reviewed (ended outcome) s h = h

  Ends-with_evidence :
      (job : ResearchJob) (tasks : List ResearchTask) (evidence : List EvidenceRecord)
      (unmet : List String)
      → IsAbout g t i job
      → Concludes g t i (with_evidence g job tasks evidence unmet)
  unfolding with_evidence is_terminal
  Ends-with_evidence job tasks [] unmet about =
      then_over g t i (Over g t i) job partial _ _ refl about (λ moved s h. h)
  Ends-with_evidence job tasks (e ∷ es) unmet about =
      Ends->>= g (AfterReview g t i) (Over g t i) (W g t i) (finish_reviewed g) Ends-finish_reviewed
        (W g t i) (review_loop g max_review_cycles 0 job tasks (e ∷ es) unmet)
        (Ends-review_loop g t i max_review_cycles 0 job tasks (e ∷ es) unmet about)

  Ends-pipeline : (job : ResearchJob) → IsAbout g t i job → Concludes g t i (pipeline g job)
  unfolding pipeline is_terminal
  Ends-pipeline job about =
      then_going g t i (Over g t i) job planning none _ refl about (λ planned about1.
        then_lift g t i (Over g t i) (g.activities.plan planned) _ (λ plan.
          then_going g t i (Over g t i) planned researching none _ refl about1 (λ started about2.
            then-Working g t i (Over g t i)
              (collect g 0 0 started (researcher_tasks g started 0 plan.tasks)) _
              (Ends-collect g t i 0 0 started (researcher_tasks g started 0 plan.tasks) about2)
              (λ gathered.
                Ends-with_evidence started (researcher_tasks g started 0 plan.tasks) gathered.0
                  gathered.1 about2))))

  abbrev Never : g.jobs.State → Type 0
  Never s = ⊥

  Ends-fail_as :
      (E : g.jobs.State → Type 0) (job : ResearchJob) (target : JobStatus) (e : Failure)
      → Ends g (Settled g t i) E (W g t i) (move g job target (some (describe e)))
      → Ends g (Over g t i) E (W g t i) (fail_as g job target e)
  unfolding fail_as
  Ends-fail_as E job target e moves =
      Ends->>= g (Settled g t i) (Over g t i) E _ (λ moved s h. h) (W g t i)
        (move g job target (some (describe e))) moves

  only_returns :
      (r : Result Failure ResearchJob × g.jobs.State)
      → After g (Settled g t i) (W g t i) r
      → is_ok r.0 ≡ true
      → After g (Settled g t i) Never r
  only_returns (ok job, s) h e = h
  only_returns (err x, s) h e = ground arith

  module _ (reliable : IsReliable g.jobs) where
    -- Every working status may fail, and the port takes that.
    Ends-move-failed :
        (job : ResearchJob) (detail : Option String)
        → IsAbout g t i job
        → Ends g (Settled g t i) Never (W g t i) (move g job failed detail)
    unfolding is_terminal
    Ends-move-failed job detail (same_tenant, same_id) s (st, stored, live) =
        only_returns (move g job failed detail s)
          (Ends-move_off g t i job failed detail refl (same_tenant, same_id) s (st, stored, live))
          (rw (same_tenant, same_id)
            (reliable.accepts s t i st failed detail stored (may_move-failed st live)))

    Ends-as_failed :
        (job : ResearchJob) (e : Failure)
        → IsAbout g t i job
        → Ends g
            (Over g t i)
            Never
            (W g t i)
            (or_else g (fail_as g job failed e) (λ _. lift g (err e)))
    Ends-as_failed job e about =
        Ends-or_else g (Over g t i) Never Never _ (λ x s h. absurd h) (W g t i)
          (fail_as g job failed e)
          (Ends-fail_as Never job failed e (Ends-move-failed job (some (describe e)) about))

    Ends-fail :
        (job : ResearchJob) (e : Failure)
        → IsAbout g t i job
        → Ends g (Over g t i) Never (W g t i) (fail g job e)
    unfolding fail is_terminal
    Ends-fail job e about =
        elim (has_prefix (describe e) "BudgetExhausted")
          as (λ spent. Ends g (Over g t i) Never (W g t i) (
            if spent
            then or_else g (fail_as g job partial e)
                (λ _. or_else g (fail_as g job failed e) (λ _. lift g (err e)))
            else or_else g (fail_as g job failed e) (λ _. lift g (err e)))) [
              | false ↦ Ends-as_failed job e about
              | true ↦
                  Ends-or_else g (Over g t i) (W g t i) Never _ (λ x. Ends-as_failed job e about)
                    (W g t i) (fail_as g job partial e)
                    (Ends-fail_as (W g t i) job partial e
                      (Ends-move_off g t i job partial (some (describe e)) refl about))
            ]

    Ends-run :
        (job : ResearchJob)
        → IsAbout g t i job
        → Ends g (Over g t i) Never (W g t i) (run_research_job g job)
    unfolding run_research_job
    Ends-run job about =
        Ends-or_else g (Over g t i) (W g t i) Never (fail g job) (λ e. Ends-fail job e about)
          (W g t i) (pipeline g job) (Ends-pipeline job about)

  answered :
      (r : Result Failure ResearchOutcome × g.jobs.State)
      → After g (Over g t i) Never r
      → (outcome : ResearchOutcome) × (r.0 ≡ ok outcome)
        × (is_terminal outcome.job.status ≡ true)
        × (g.jobs.status_of r.1 t i ≡ some outcome.job.status)
  answered (ok outcome, s) (over, stored) = (outcome, refl, over, stored)
  answered (err e, s) h = absurd h

-- Whatever the activities do, a run over a port that accepts the transitions of the status machine
-- returns an outcome, when the stored status of the job is not terminal: the job of the outcome is
-- in a terminal status, and that is the status which is then stored.
pub run_research_job-terminal :
    (g : Setting) (job : ResearchJob) (s : g.jobs.State) (st : JobStatus)
    → IsReliable g.jobs
    → g.jobs.status_of s job.tenant_id job.id ≡ some st
    → is_terminal st ≡ false
    → (outcome : ResearchOutcome) × ((run_research_job g job s).0 ≡ ok outcome)
      × (is_terminal outcome.job.status ≡ true)
      × (g.jobs.status_of (run_research_job g job s).1 job.tenant_id job.id
          ≡ some outcome.job.status)
run_research_job-terminal g job s st reliable stored live =
    answered g job.tenant_id job.id (run_research_job g job s)
      (Ends-run g job.tenant_id job.id reliable job (refl, refl) s (st, stored, live))
