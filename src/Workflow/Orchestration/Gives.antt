-- ===== src/Workflow/Orchestration/Gives.antt =====
-- What the values that the calls of src/research_platform/workflow/orchestration.py return satisfy.
use secure_mcp_multi_agent_r.Base.{◌≡◌, refl, String, Option, Result, ok, err, ap}
use secure_mcp_multi_agent_r.Domain.Status.{JobStatus}
use secure_mcp_multi_agent_r.Domain.Job.{ResearchJob}
use secure_mcp_multi_agent_r.Workflow.Ports.{Failure}
use secure_mcp_multi_agent_r.Workflow.Outcomes.{Setting}
use secure_mcp_multi_agent_r.Workflow.Orchestration.{
  M, ◌>>=◌, continue_with, handled, or_else, lift, move,
}

module _ (g : Setting) where
  abbrev pub Given : {A : Type 0} → (A → Type 0) → Result Failure A × g.jobs.State → Type 0
  Given Q (ok a, s) = Q a
  Given Q (err e, s) = Unit {0}

  -- Every value that the call returns satisfies `Q`.
  abbrev pub Gives : {A : Type 0} → (A → Type 0) → M g A → Type 0
  Gives Q m = (s : g.jobs.State) → Given Q (m s)

  module _ {A B : Type 0} (Q : A → Type 0) (R : B → Type 0) (f : A → M g B)
      (next : (a : A) → Q a → Gives R (f a)) where
    Given-continue :
        (r : Result Failure A × g.jobs.State) → Given Q r → Given R (continue_with g f r)
    Given-continue (ok a, s) q = next a q s
    Given-continue (err e, s) q = tt

    pub Gives->>= : (m : M g A) → Gives Q m → Gives R (◌>>=◌ g m f)
    Gives->>= m first s = Given-continue (m s) (first s)

  module _ {A : Type 0} (Q : A → Type 0) (h : Failure → M g A)
      (recover : (e : Failure) → Gives Q (h e)) where
    Given-handled : (r : Result Failure A × g.jobs.State) → Given Q r → Given Q (handled g h r)
    Given-handled (ok a, s) q = q
    Given-handled (err e, s) q = recover e s

    pub Gives-or_else : (m : M g A) → Gives Q m → Gives Q (or_else g m h)
    Gives-or_else m first s = Given-handled (m s) (first s)

  -- The first call says nothing of its value.
  pub then_any :
      {A B : Type 0} (R : B → Type 0) (m : M g A) (f : A → M g B)
      → ((a : A) → Gives R (f a))
      → Gives R (◌>>=◌ g m f)
  then_any {A = A} R m f next =
      Gives->>= (λ (_ : A). Unit {0}) R f (λ a _. next a) m (λ s. anything (m s))
    where
      anything : (r : Result Failure A × g.jobs.State) → Given (λ (_ : A). Unit {0}) r
      anything (ok a, s) = tt
      anything (err e, s) = tt

  pub then_answer :
      {A B : Type 0} (R : B → Type 0) (answer : Result Failure A) (f : A → M g B)
      → ((a : A) → answer ≡ ok a → Gives R (f a))
      → Gives R (◌>>=◌ g (lift g answer) f)
  then_answer R (ok a) f next s = next a refl s
  then_answer R (err e) f next s = tt

  module _ (job : ResearchJob) (target : JobStatus) (detail : Option String)
      (s : g.jobs.State) where
    Given-transition :
        (r : Result Failure ResearchJob × g.jobs.State)
        → g.jobs.transition s job.tenant_id job.id target detail ≡ r
        → Given (λ moved. moved.status ≡ target) r
    Given-transition (ok moved, s') e =
        let e0 = ap (λ (x : Result Failure ResearchJob × g.jobs.State). x.0) e in
        let (_, _, same_status, _) = g.jobs.moved s job.tenant_id job.id target detail moved e0 in
        same_status
    Given-transition (err x, s') e = tt

  pub Gives-move :
      (job : ResearchJob) (target : JobStatus) (detail : Option String)
      → Gives (λ moved. moved.status ≡ target) (move g job target detail)
  Gives-move job target detail s = Given-transition job target detail s _ refl

  pub Given-weaken :
      {A : Type 0} (Q R : A → Type 0) (r : Result Failure A × g.jobs.State)
      → ((a : A) → Q a → R a)
      → Given Q r
      → Given R r
  Given-weaken Q R (ok a, s) imp q = imp a q
  Given-weaken Q R (err e, s) imp q = tt

  pub Gives-always : {A : Type 0} (Q : A → Type 0) (m : M g A) → ((a : A) → Q a) → Gives Q m
  Gives-always {A = A} Q m h s = always (m s)
    where
      always : (r : Result Failure A × g.jobs.State) → Given Q r
      always (ok a, s') = h a
      always (err e, s') = tt
