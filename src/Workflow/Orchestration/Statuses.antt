-- ===== src/Workflow/Orchestration/Statuses.antt =====
-- The statuses that the calls of src/research_platform/workflow/orchestration.py leave.
use secure_mcp_multi_agent_r.Base.{
  ℕ, true, false, ◌≡◌, String, Option, some, List, [], ◌∷◌, Result, ok, err, is_ok, refl, sym, ◌∙◌,
  ap,
}
use secure_mcp_multi_agent_r.Domain.Status.{JobStatus, is_terminal}
use secure_mcp_multi_agent_r.Domain.Job.{ResearchJob}
use secure_mcp_multi_agent_r.Domain.Evidence.{
  EvidenceRecordCreate, EvidenceRecord, Finding, FindingError, ReviewerStatus,
}
use secure_mcp_multi_agent_r.Agents.Contracts.{AnalysisResult, CriticReview}
use secure_mcp_multi_agent_r.Application.Findings.{derive_findings}
use secure_mcp_multi_agent_r.Workflow.Ports.{Failure}
use secure_mcp_multi_agent_r.Workflow.Outcomes.{Setting}
use secure_mcp_multi_agent_r.Workflow.Orchestration.{
  M, ◌>>=◌, lift, return, move, store_findings, record_findings, store_records,
}
use secure_mcp_multi_agent_r.Workflow.Orchestration.Hoare.{Ends, After, Ends-weaken, Ends->>=}

module _ (g : Setting) (t : String) (i : ℕ) where
  -- The stored status is one that work still leads out of.
  abbrev pub Working : g.jobs.State → Type 0
  Working s = (st : JobStatus) × (g.jobs.status_of s t i ≡ some st) × (is_terminal st ≡ false)

  abbrev pub IsAbout : ResearchJob → Type 0
  IsAbout job = (job.tenant_id ≡ t) × (job.id ≡ i)

  -- The job that a call hands on, while the work goes on.
  abbrev pub Going : ResearchJob → g.jobs.State → Type 0
  Going job s = IsAbout job × Working s

  -- The stored status is terminal, and it is the one of the job that is handed back.
  abbrev pub Settled : ResearchJob → g.jobs.State → Type 0
  Settled job s = (is_terminal job.status ≡ true) × (g.jobs.status_of s t i ≡ some job.status)

  abbrev pub Moved : JobStatus → ResearchJob → g.jobs.State → Type 0
  Moved target job s = IsAbout job × (job.status ≡ target) × (g.jobs.status_of s t i ≡ some target)

  module _ (target : JobStatus) (detail : Option String) (s : g.jobs.State) where
    transition_at :
        (r : Result Failure ResearchJob × g.jobs.State)
        → g.jobs.transition s t i target detail ≡ r
        → Working s
        → After g (Moved target) Working r
    transition_at (ok job, s') e w =
        let e0 = ap (λ (x : Result Failure ResearchJob × g.jobs.State). x.0) e in
        let e1 = ap (λ (x : Result Failure ResearchJob × g.jobs.State). x.1) e in
        let (same_tenant, same_id, same_status, stored) = g.jobs.moved s t i target detail job e0 in
        ((same_tenant, same_id), same_status, rw (sym e1) stored)
    transition_at (err x, s') e (st, stored, live) =
        let e0 = ap (λ (x : Result Failure ResearchJob × g.jobs.State). is_ok x.0) e in
        let e1 = ap (λ (x : Result Failure ResearchJob × g.jobs.State). x.1) e in
        let stays = g.jobs.refused s t i target detail e0 in
        (st, rw (sym e1) (stays ∙ stored), live)

  pub Ends-move :
      (job : ResearchJob) (target : JobStatus) (detail : Option String)
      → IsAbout job
      → Ends g (Moved target) Working Working (move g job target detail)
  Ends-move job target detail (same_tenant, same_id) s w =
      rw (same_tenant, same_id)
        (transition_at target detail s (g.jobs.transition s t i target detail) refl w)

  pub Ends-move_on :
      (job : ResearchJob) (target : JobStatus) (detail : Option String)
      → is_terminal target ≡ false
      → IsAbout job
      → Ends g Going Working Working (move g job target detail)
  Ends-move_on job target detail live about =
      Ends-weaken g Working (Moved target) Going Working (move g job target detail)
        (λ moved s (same, _, stored). (same, (target, stored, live)))
        (Ends-move job target detail about)

  pub Ends-move_off :
      (job : ResearchJob) (target : JobStatus) (detail : Option String)
      → is_terminal target ≡ true
      → IsAbout job
      → Ends g Settled Working Working (move g job target detail)
  Ends-move_off job target detail over about =
      Ends-weaken g Working (Moved target) Settled Working (move g job target detail)
        (λ moved s (same, reached, stored). (rw reached over, rw reached stored))
        (Ends-move job target detail about)

  -- A call that leaves the status as it was.
  Working-kept :
      {A : Type 0} (r : Result Failure A × g.jobs.State) (s : g.jobs.State)
      → g.jobs.status_of r.1 t i ≡ g.jobs.status_of s t i
      → Working s
      → After g (λ (_ : A). Working) Working r
  Working-kept (ok a, s') s e (st, stored, live) = (st, e ∙ stored, live)
  Working-kept (err x, s') s e (st, stored, live) = (st, e ∙ stored, live)

  pub Ends-add_evidence :
      (job : ResearchJob) (e : EvidenceRecordCreate)
      → IsAbout job
      → Ends g
          (λ (_ : EvidenceRecord). Working)
          Working
          Working
          (λ s. g.jobs.add_evidence s job.tenant_id job.id e)
  Ends-add_evidence job e (same_tenant, same_id) s w =
      rw (same_tenant, same_id)
        (Working-kept (g.jobs.add_evidence s t i e) s (g.jobs.add_evidence_keeps s t i e) w)

  Ends-store_findings :
      (job : ResearchJob) (r : Result FindingError (List Finding))
      → IsAbout job
      → Ends g (λ (_ : Unit {0}). Working) Working Working (store_findings g job r)
  unfolding store_findings
  Ends-store_findings job (err e) about s w = w
  Ends-store_findings job (ok findings) (same_tenant, same_id) s w =
      rw (same_tenant, same_id)
        (Working-kept (g.jobs.record_findings s t i findings) s
          (g.jobs.record_findings_keeps s t i findings) w)

  pub Ends-record_findings :
      (job : ResearchJob) (analysis : AnalysisResult) (critique : CriticReview)
      (reviewer_status : ReviewerStatus)
      → IsAbout job
      → Ends g
          (λ (_ : Unit {0}). Working)
          Working
          Working
          (record_findings g job analysis critique reviewer_status)
  unfolding record_findings
  Ends-record_findings job analysis critique reviewer_status about =
      Ends-store_findings job (derive_findings analysis.findings critique.verdicts reviewer_status)
        about

  -- A chain whose first call only keeps the work going.
  pub then-Working :
      {A B : Type 0} (R : B → g.jobs.State → Type 0) (m : M g A) (f : A → M g B)
      → Ends g (λ (_ : A). Working) Working Working m
      → ((a : A) → Ends g R Working Working (f a))
      → Ends g R Working Working (◌>>=◌ g m f)
  then-Working {A = A} R m f first next =
      Ends->>= g (λ (_ : A). Working) R Working f next Working m first

  -- A chain that starts with a move to a status that work leads out of.
  pub then_going :
      {B : Type 0} (R : B → g.jobs.State → Type 0) (job : ResearchJob) (target : JobStatus)
      (detail : Option String) (f : ResearchJob → M g B)
      → is_terminal target ≡ false
      → IsAbout job
      → ((moved : ResearchJob) → IsAbout moved → Ends g R Working Working (f moved))
      → Ends g R Working Working (◌>>=◌ g (move g job target detail) f)
  then_going R job target detail f live about next =
      Ends->>= g Going R Working f (λ moved s (same, w). next moved same s w) Working
        (move g job target detail) (Ends-move_on job target detail live about)

  -- A chain that starts with an activity.
  pub then_lift :
      {A B : Type 0} (R : B → g.jobs.State → Type 0) (answer : Result Failure A) (f : A → M g B)
      → ((a : A) → Ends g R Working Working (f a))
      → Ends g R Working Working (◌>>=◌ g (lift g answer) f)
  then_lift R (ok a) f next s w = next a s w
  then_lift R (err e) f next s w = w

  pub Ends-store_records :
      (job : ResearchJob) (es : List EvidenceRecordCreate)
      → IsAbout job
      → Ends g (λ (_ : List EvidenceRecord). Working) Working Working (store_records g job es)
  unfolding store_records
  Ends-store_records job [] about = λ s w. w
  Ends-store_records job (e ∷ es) about =
      then-Working (λ (_ : List EvidenceRecord). Working)
        (λ s. g.jobs.add_evidence s job.tenant_id job.id e)
        (λ stored. ◌>>=◌ g (store_records g job es) (λ rest. return g (stored ∷ rest)))
        (Ends-add_evidence job e about)
        (λ stored.
          then-Working (λ (_ : List EvidenceRecord). Working) (store_records g job es)
            (λ rest. return g (stored ∷ rest)) (Ends-store_records job es about) (λ rest s w. w))
