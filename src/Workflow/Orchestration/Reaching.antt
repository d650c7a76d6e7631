-- ===== src/Workflow/Orchestration/Reaching.antt =====
-- `run_research_job` of src/research_platform/workflow/orchestration.py: the statuses a run ends
-- in.
use secure_mcp_multi_agent_r.Base.{
  ℕ, zero, suc, Bool, true, false, ◌≡◌, refl, String, Option, none, List, [], ◌∷◌, ◌++◌, Result, ok,
  err,
}
use secure_mcp_multi_agent_r.Domain.Status.{
  JobStatus, is_terminal, partial, failed, review_required, analyzing, researching,
}
use secure_mcp_multi_agent_r.Domain.Job.{ResearchJob}
use secure_mcp_multi_agent_r.Domain.Evidence.{
  EvidenceRecord, not_required, awaited, approved, rejected,
}
use secure_mcp_multi_agent_r.Domain.Tasks.{ResearchTask}
use secure_mcp_multi_agent_r.Application.Findings.{requires_reviewer}
use secure_mcp_multi_agent_r.Agents.Contracts.{EvidenceSubmission, AnalysisResult, CriticReview}
use secure_mcp_multi_agent_r.Workflow.Ports.{
  Failure, ReviewerDecision, approve, reject, request_more_research,
}
use secure_mcp_multi_agent_r.Workflow.Outcomes.{Setting, ResearchOutcome, Reviewed, settled, ended}
use secure_mcp_multi_agent_r.Workflow.Orchestration.{
  M, ◌>>=◌, move, collect, keep_result, store_records, decided, judged, review_once, give_up,
  review_loop, record_findings,
}
use secure_mcp_multi_agent_r.Workflow.Orchestration.Hoare.{Ends, Ends->>=}
use secure_mcp_multi_agent_r.Workflow.Orchestration.Statuses.{
  Working, IsAbout, Settled, then-Working, then_going, then_lift, Ends-move_off,
  Ends-record_findings, Ends-store_records,
}

module _ (g : Setting) (t : String) (i : ℕ) where
  abbrev pub W : g.jobs.State → Type 0
  W = Working g t i

  abbrev Gathers : M g (List EvidenceRecord × List String) → Type 0
  Gathers m = Ends g (λ (_ : List EvidenceRecord × List String). W) W W m

  Ends-keep_result :
      (job : ResearchJob) (task : ResearchTask) (rest : M g (List EvidenceRecord × List String))
      (result : Result Failure EvidenceSubmission)
      → IsAbout g t i job
      → Gathers rest
      → Gathers (keep_result g job task rest result)
  unfolding keep_result
  Ends-keep_result job task rest (err e) about h = then-Working g t i _ rest _ h (λ gathered s w. w)
  Ends-keep_result job task rest (ok result) about h =
      then-Working g t i _ (store_records g job result.records) _
        (Ends-store_records g t i job result.records about)
        (λ stored. then-Working g t i _ rest _ h (λ gathered s w. w))

  pub Ends-collect :
      (cycle position : ℕ) (job : ResearchJob) (tasks : List ResearchTask)
      → IsAbout g t i job
      → Gathers (collect g cycle position job tasks)
  unfolding collect
  Ends-collect cycle position job [] about = λ s w. w
  Ends-collect cycle position job (task ∷ tasks) about =
      Ends-keep_result job task (collect g cycle (suc position) job tasks)
        (g.activities.research cycle position job task) about
        (Ends-collect cycle (suc position) job tasks about)

  -- What the loop leaves: work to go on with, or a job that is over.
  abbrev pub AfterReview : Reviewed → g.jobs.State → Type 0
  AfterReview (settled job critique evidence unmet) s = IsAbout g t i job × W s
  AfterReview (ended outcome) s = Settled g t i outcome.job s

  abbrev pub Over : ResearchOutcome → g.jobs.State → Type 0
  Over outcome s = Settled g t i outcome.job s

  abbrev Reviews : M g Reviewed → Type 0
  Reviews m = Ends g AfterReview W W m

  abbrev pub Concludes : M g ResearchOutcome → Type 0
  Concludes m = Ends g Over W W m

  -- A chain that ends with a move to a terminal status.
  pub then_over :
      {B : Type 0} (R : B → g.jobs.State → Type 0) (job : ResearchJob) (target : JobStatus)
      (detail : Option String) (f : ResearchJob → M g B)
      → is_terminal target ≡ true
      → IsAbout g t i job
      → ((moved : ResearchJob) → Ends g R W (Settled g t i moved) (f moved))
      → Ends g R W W (◌>>=◌ g (move g job target detail) f)
  then_over R job target detail f over about next =
      Ends->>= g (Settled g t i) R W f next W (move g job target detail)
        (Ends-move_off g t i job target detail over about)

  module _ (again : ResearchJob → M g Reviewed)
      (resumes : (job : ResearchJob) → IsAbout g t i job → Reviews (again job)) where
    Ends-decided :
        (analyzed waiting : ResearchJob) (analysis : AnalysisResult) (critique : CriticReview)
        (evidence : List EvidenceRecord) (unmet : List String) (decision : ReviewerDecision)
        → IsAbout g t i analyzed
        → IsAbout g t i waiting
        → Reviews (decided g again analyzed waiting analysis critique evidence unmet decision)
    unfolding decided is_terminal
    Ends-decided analyzed waiting analysis critique evidence unmet approve about1 about2 =
        then-Working g t i AfterReview (record_findings g analyzed analysis critique approved) _
          (Ends-record_findings g t i analyzed analysis critique approved about1)
          (λ _ s w. (about2, w))
    Ends-decided analyzed waiting analysis critique evidence unmet reject about1 about2 =
        then-Working g t i AfterReview (record_findings g analyzed analysis critique rejected) _
          (Ends-record_findings g t i analyzed analysis critique rejected about1)
          (λ _. then_over AfterReview waiting failed _ _ refl about2 (λ moved s h. h))
    Ends-decided analyzed waiting analysis critique evidence unmet request_more_research about1
          about2 =
        then_going g t i AfterReview waiting researching none _ refl about2 resumes

    Ends-judged :
        (cycle : ℕ) (analyzed : ResearchJob) (analysis : AnalysisResult) (critique : CriticReview)
        (evidence : List EvidenceRecord) (unmet : List String) (needs_reviewer : Bool)
        → IsAbout g t i analyzed
        → Reviews (judged g again cycle analyzed analysis critique evidence unmet needs_reviewer)
    unfolding judged is_terminal
    Ends-judged cycle analyzed analysis critique evidence unmet false about =
        then-Working g t i AfterReview (record_findings g analyzed analysis critique not_required) _
          (Ends-record_findings g t i analyzed analysis critique not_required about)
          (λ _ s w. (about, w))
    Ends-judged cycle analyzed analysis critique evidence unmet true about =
        then-Working g t i AfterReview (record_findings g analyzed analysis critique awaited) _
          (Ends-record_findings g t i analyzed analysis critique awaited about)
          (λ _.
            then_going g t i AfterReview analyzed review_required none _ refl about
              (λ waiting about2.
                then_lift g t i AfterReview
                  (g.activities.await_reviewer_decision cycle waiting critique) _
                  (λ decision.
                    Ends-decided analyzed waiting analysis critique evidence unmet decision about
                      about2)))

    Ends-review_once :
        (cycle : ℕ) (job : ResearchJob) (evidence : List EvidenceRecord) (unmet : List String)
        → IsAbout g t i job
        → Reviews (review_once g again cycle job evidence unmet)
    unfolding review_once is_terminal
    Ends-review_once cycle job evidence unmet about =
        then_going g t i AfterReview job analyzing none _ refl about (λ analyzed about1.
          then_lift g t i AfterReview (g.activities.analyze cycle analyzed evidence) _ (λ analysis.
            then_lift g t i AfterReview (g.activities.critique cycle analyzed analysis evidence) _
              (λ critique.
                Ends-judged cycle analyzed analysis critique evidence unmet
                  (requires_reviewer critique.verdicts critique.coverage_gaps) about1)))

  pub Ends-review_loop :
      (left cycle : ℕ) (job : ResearchJob) (tasks : List ResearchTask)
      (evidence : List EvidenceRecord) (unmet : List String)
      → IsAbout g t i job
      → Reviews (review_loop g left cycle job tasks evidence unmet)
  unfolding review_loop give_up is_terminal
  Ends-review_loop zero cycle job tasks evidence unmet about =
      Ends-review_once (give_up g evidence)
        (λ reopened about1. then_over AfterReview reopened partial _ _ refl about1 (λ moved s h. h))
        cycle job evidence unmet about
  Ends-review_loop (suc left) cycle job tasks evidence unmet about =
      Ends-review_once _
        (λ reopened about1.
          then-Working g t i AfterReview (collect g (suc cycle) 0 reopened tasks) _
            (Ends-collect (suc cycle) 0 reopened tasks about1)
            (λ gathered.
              Ends-review_loop left (suc cycle) reopened tasks (evidence ++ gathered.0) gathered.1
                about1))
        cycle job evidence unmet about
