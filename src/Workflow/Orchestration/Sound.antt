-- ===== src/Workflow/Orchestration/Sound.antt =====
-- `run_research_job` of src/research_platform/workflow/orchestration.py: what its outcomes have in
-- common.
use secure_mcp_multi_agent_r.Base.{
  true, false, ◌≡◌, refl, sym, ◌∙◌, inl, inr, arith, String, Option, none, some, List, [], ◌∷◌,
  is_empty, nat_eq, Result, err, has_prefix, if◌then◌else◌,
}
use secure_mcp_multi_agent_r.Domain.Status.{
  completed, partial, failed, reporting, researching, planning,
}
use secure_mcp_multi_agent_r.Domain.Job.{ResearchJob}
use secure_mcp_multi_agent_r.Domain.Evidence.{EvidenceRecord}
use secure_mcp_multi_agent_r.Domain.Tasks.{ResearchTask}
use secure_mcp_multi_agent_r.Application.Jobs.{ReportPublication}
use secure_mcp_multi_agent_r.Agents.Contracts.{CriticReview, ResearchReport}
use secure_mcp_multi_agent_r.Workflow.Ports.{Failure}
use secure_mcp_multi_agent_r.Workflow.Outcomes.{
  Setting, Reviewed, settled, ended, join_texts, max_review_cycles, describe,
}
use secure_mcp_multi_agent_r.Workflow.Orchestration.{
  lift, move, collect, researcher_tasks, publish_report, close, conclude, finish_reviewed,
  with_evidence, pipeline, review_loop, shortfalls_of, fail, fail_as, or_else, run_research_job,
}
use secure_mcp_multi_agent_r.Workflow.Orchestration.Gives.{
  Gives, Gives->>=, Gives-or_else, then_any, then_answer, Gives-move, Gives-always, Given-weaken,
}
use secure_mcp_multi_agent_r.Workflow.Orchestration.Reports.{
  IsCleared, IsReviewed, IsPublished, IsSound, stops_with, Gives-review_loop,
}

pub partial-completed : partial ≡ completed → ⊥
partial-completed e = ground arith

module _ (g : Setting) where
  Gives-close :
      (job : ResearchJob) (shortfalls : List String)
      → Gives g
          (λ (final : ResearchJob). (final.status ≡ completed) → shortfalls ≡ [])
          (close g job shortfalls)
  unfolding close
  Gives-close job [] s =
      Gives-always g (λ (final : ResearchJob). (final.status ≡ completed) → [] ≡ [])
        (move g job completed none) (λ final e. refl) s
  Gives-close job (x ∷ xs) s =
      Given-weaken g (λ (final : ResearchJob). final.status ≡ partial)
        (λ (final : ResearchJob). (final.status ≡ completed) → x ∷ xs ≡ [])
        (move g job partial (some (join_texts (x ∷ xs))) s)
        (λ final e1 e2. absurd (partial-completed (sym e1 ∙ e2)))
        (Gives-move g job partial (some (join_texts (x ∷ xs))) s)

  Gives-publish_report :
      (publish : Option
        (ResearchJob → ResearchReport → List String → Result Failure ReportPublication))
      → g.activities.publish ≡ publish
      → (job : ResearchJob) (report : ResearchReport) (shortfalls : List String)
      → Gives g
          (IsPublished g job report shortfalls)
          (publish_report g publish job report shortfalls)
  unfolding publish_report
  Gives-publish_report none e job report shortfalls = λ s. inl (e, refl)
  Gives-publish_report (some export) e job report shortfalls =
      then_answer g (IsPublished g job report shortfalls) (export job report shortfalls) _
        (λ p answer s. inr (export, p, e, answer, refl))

  Gives-conclude :
      (job : ResearchJob) (critique : CriticReview) (evidence : List EvidenceRecord)
      (unmet : List String)
      → IsCleared g evidence critique
      → is_empty evidence ≡ false
      → Gives g (IsSound g) (conclude g job critique evidence unmet)
  unfolding conclude
  Gives-conclude job critique evidence unmet cleared some_evidence =
      then_any g (IsSound g) (move g job reporting none) _ (λ written.
        then_answer g (IsSound g) (g.activities.report written critique evidence) _
          (λ report answer.
            Gives->>= g (IsPublished g written report (shortfalls_of g unmet report evidence))
              (IsSound g) _
              (λ publication published.
                Gives->>= g
                  (λ (final : ResearchJob).
                    (final.status ≡ completed) → shortfalls_of g unmet report evidence ≡ [])
                  (IsSound g) _
                  (λ final closed s. inr (
                    report,
                    (
                      critique, written, unmet, refl, cleared, some_evidence, answer, published,
                      closed,
                    ),
                  ))
                  (close g written (shortfalls_of g unmet report evidence))
                  (Gives-close written (shortfalls_of g unmet report evidence)))
              (publish_report g g.activities.publish written report
                (shortfalls_of g unmet report evidence))
              (Gives-publish_report g.activities.publish refl written report
                (shortfalls_of g unmet report evidence))))

  Gives-finish_reviewed :
      (reviewed : Reviewed)
      → IsReviewed g reviewed
      → Gives g (IsSound g) (finish_reviewed g reviewed)
  unfolding finish_reviewed
  Gives-finish_reviewed (settled job critique evidence unmet) (cleared, some_evidence) =
      Gives-conclude job critique evidence unmet cleared some_evidence
  Gives-finish_reviewed (ended outcome) h = λ s. inl h

  Gives-with_evidence :
      (job : ResearchJob) (tasks : List ResearchTask) (evidence : List EvidenceRecord)
      (unmet : List String)
      → Gives g (IsSound g) (with_evidence g job tasks evidence unmet)
  unfolding with_evidence
  Gives-with_evidence job tasks [] unmet =
      stops_with g (IsSound g) job partial _ _ (λ moved e s. inl (refl, inl e))
  Gives-with_evidence job tasks (e ∷ es) unmet =
      Gives->>= g (IsReviewed g) (IsSound g) (finish_reviewed g) Gives-finish_reviewed
        (review_loop g max_review_cycles 0 job tasks (e ∷ es) unmet)
        (Gives-review_loop g max_review_cycles 0 job tasks (e ∷ es) unmet refl)

  Gives-pipeline : (job : ResearchJob) → Gives g (IsSound g) (pipeline g job)
  unfolding pipeline
  Gives-pipeline job = then_any g (IsSound g) (move g job planning none) _ (λ planned.
      then_any g (IsSound g) (lift g (g.activities.plan planned)) _ (λ plan.
        then_any g (IsSound g) (move g planned researching none) _ (λ started.
          then_any g (IsSound g) (collect g 0 0 started (researcher_tasks g started 0 plan.tasks)) _
            (λ gathered.
              Gives-with_evidence started (researcher_tasks g started 0 plan.tasks) gathered.0
                gathered.1))))

  Gives-fail_as-failed :
      (job : ResearchJob) (e : Failure)
      → Gives g (IsSound g) (or_else g (fail_as g job failed e) (λ _. lift g (err e)))
  unfolding fail_as
  Gives-fail_as-failed job e =
      Gives-or_else g (IsSound g) _ (λ x s. tt) (fail_as g job failed e)
        (stops_with g (IsSound g) job failed _ _ (λ moved same s. inl (refl, inr same)))

  Gives-fail : (job : ResearchJob) (e : Failure) → Gives g (IsSound g) (fail g job e)
  unfolding fail fail_as
  Gives-fail job e =
      elim (has_prefix (describe e) "BudgetExhausted")
        as (λ spent. Gives g (IsSound g) (
          if spent
          then or_else g (fail_as g job partial e)
              (λ _. or_else g (fail_as g job failed e) (λ _. lift g (err e)))
          else or_else g (fail_as g job failed e) (λ _. lift g (err e)))) [
            | false ↦ Gives-fail_as-failed job e
            | true ↦
                Gives-or_else g (IsSound g) _ (λ x. Gives-fail_as-failed job e)
                  (fail_as g job partial e)
                  (stops_with g (IsSound g) job partial _ _ (λ moved same s. inl (refl, inl same)))
          ]

  pub Gives-run : (job : ResearchJob) → Gives g (IsSound g) (run_research_job g job)
  unfolding run_research_job
  Gives-run job =
      Gives-or_else g (IsSound g) (fail g job) (Gives-fail job) (pipeline g job)
        (Gives-pipeline job)
