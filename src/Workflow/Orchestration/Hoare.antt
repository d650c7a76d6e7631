-- ===== src/Workflow/Orchestration/Hoare.antt =====
-- Triples over the calls of src/research_platform/workflow/orchestration.py.
use secure_mcp_multi_agent_r.Base.{◌≡◌, refl, Result, ok, err}
use secure_mcp_multi_agent_r.Workflow.Ports.{Failure}
use secure_mcp_multi_agent_r.Workflow.Outcomes.{Setting}
use secure_mcp_multi_agent_r.Workflow.Orchestration.{
  M, ◌>>=◌, continue_with, handled, or_else, lift, return,
}

module _ (g : Setting) where
  module _ {A : Type 0} (Q : A → g.jobs.State → Type 0) (E : g.jobs.State → Type 0) where
    -- What holds of an answer and of the state it leaves.
    abbrev pub After : Result Failure A × g.jobs.State → Type 0
    After (ok a, s) = Q a s
    After (err e, s) = E s

    -- From a state where `P` holds, the call returns with `Q` or raises with `E`.
    abbrev pub Ends : (g.jobs.State → Type 0) → M g A → Type 0
    Ends P m = (s : g.jobs.State) → P s → After (m s)

  module _ {A B : Type 0} (Q : A → g.jobs.State → Type 0) (R : B → g.jobs.State → Type 0)
      (E : g.jobs.State → Type 0) (f : A → M g B) (next : (a : A) → Ends R E (Q a) (f a)) where
    After-continue :
        (r : Result Failure A × g.jobs.State) → After Q E r → After R E (continue_with g f r)
    After-continue (ok a, s) q = next a s q
    After-continue (err e, s) q = q

    -- A chain: what the first call leaves is what the second one starts from.
    pub Ends->>= : (P : g.jobs.State → Type 0) (m : M g A) → Ends Q E P m → Ends R E P (◌>>=◌ g m f)
    Ends->>= P m first s p = After-continue (m s) (first s p)

  module _ {A : Type 0} (Q : A → g.jobs.State → Type 0) (E F : g.jobs.State → Type 0)
      (h : Failure → M g A) (recover : (e : Failure) → Ends Q F E (h e)) where
    After-handled : (r : Result Failure A × g.jobs.State) → After Q E r → After Q F (handled g h r)
    After-handled (ok a, s) q = q
    After-handled (err e, s) q = recover e s q

    pub Ends-or_else :
        (P : g.jobs.State → Type 0) (m : M g A) → Ends Q E P m → Ends Q F P (or_else g m h)
    Ends-or_else P m first s p = After-handled (m s) (first s p)

  module _ {A : Type 0} (P : g.jobs.State → Type 0) where
    After-lift :
        (answer : Result Failure A) (s : g.jobs.State)
        → P s
        → After (λ a s'. P s' × (answer ≡ ok a)) P (answer, s)
    After-lift (ok a) s p = (p, refl)
    After-lift (err e) s p = p

    -- An activity leaves the state, and its answer is known afterwards.
    pub Ends-lift :
        (answer : Result Failure A) → Ends (λ a s. P s × (answer ≡ ok a)) P P (lift g answer)
    Ends-lift answer s p = After-lift answer s p

  pub Ends-weaken :
      {A : Type 0} (P : g.jobs.State → Type 0) (Q R : A → g.jobs.State → Type 0)
      (E : g.jobs.State → Type 0) (m : M g A)
      → ((a : A) (s : g.jobs.State) → Q a s → R a s)
      → Ends Q E P m
      → Ends R E P m
  Ends-weaken {A = A} P Q R E m imp h s p = weakened (m s) (h s p)
    where
      weakened : (r : Result Failure A × g.jobs.State) → After Q E r → After R E r
      weakened (ok a, s') q = imp a s' q
      weakened (err e, s') q = q

  -- A returned value, in a state that already has what it needs.
  pub Ends-return :
      {A : Type 0} (Q : A → g.jobs.State → Type 0) (E : g.jobs.State → Type 0) (a : A)
      → Ends Q E (Q a) (return g a)
  Ends-return Q E a s q = q
