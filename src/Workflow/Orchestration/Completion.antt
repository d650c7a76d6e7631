-- ===== src/Workflow/Orchestration/Completion.antt =====
-- `run_research_job` of src/research_platform/workflow/orchestration.py: what a report rests on,
-- and what a completed job promises.
use secure_mcp_multi_agent_r.Base.{
  ℕ, Bool, true, false, not, ◌≡◌, refl, sym, ◌∙◌, subst, inl, inr, arith, String, none, some, List,
  [], ◌∷◌, ◌++◌, is_empty, map, filter, all, sort, insert_sorted, elem, leb, nat_eq, Result, ok,
  err,
}
use secure_mcp_multi_agent_r.Domain.Status.{completed, failed}
use secure_mcp_multi_agent_r.Domain.Job.{ResearchJob}
use secure_mcp_multi_agent_r.Domain.Evidence.{EvidenceRecord}
use secure_mcp_multi_agent_r.Application.Findings.{first_occurrences}
use secure_mcp_multi_agent_r.Agents.Contracts.{
  CriticReview, ResearchReport, cited_evidence_ids, unsupported_citations,
}
use secure_mcp_multi_agent_r.Workflow.Ports.{Failure}
use secure_mcp_multi_agent_r.Workflow.Outcomes.{Setting, ResearchOutcome}
use secure_mcp_multi_agent_r.Workflow.Orchestration.{
  shortfalls_of, missing_citations, run_research_job,
}
use secure_mcp_multi_agent_r.Workflow.Orchestration.Gives.{Given}
use secure_mcp_multi_agent_r.Workflow.Orchestration.Reports.{
  IsCleared, IsReported, IsPublished, IsSound,
}
use secure_mcp_multi_agent_r.Workflow.Orchestration.Sound.{partial-completed, Gives-run}

failed-completed : failed ≡ completed → ⊥
failed-completed e = ground arith

ok_injective :
    (a b : ResearchOutcome) → ◌≡◌ {A = Result Failure ResearchOutcome} (ok a) (ok b) → a ≡ b
ok_injective a b e = cc

some_injective : {A : Type 0} {a b : A} → some a ≡ some b → a ≡ b
some_injective e = cc

some-none : {A : Type 0} {a : A} → some a ≡ none → ⊥
some-none e = ground arith

empty_lists :
    {A : Type 0} (xs ys zs : List A) → xs ++ ys ++ zs ≡ [] → (xs ≡ []) × (ys ≡ []) × (zs ≡ [])
empty_lists [] [] [] h = (refl, refl, refl)
empty_lists (x ∷ xs) ys zs h = ground arith
empty_lists [] (y ∷ ys) zs h = ground arith
empty_lists [] [] (z ∷ zs) h = ground arith

empty_map : {A B : Type 0} (f : A → B) (xs : List A) → map f xs ≡ [] → xs ≡ []
empty_map f [] h = refl
empty_map f (x ∷ xs) h = ground arith

insert_sorted-nil : (x : ℕ) (xs : List ℕ) → insert_sorted leb x xs ≡ [] → ⊥
unfolding insert_sorted
insert_sorted-nil x [] h = ground arith
insert_sorted-nil x (y ∷ ys) h = ground arith

sort-nil : (xs : List ℕ) → sort leb xs ≡ [] → xs ≡ []
unfolding sort
sort-nil [] h = refl
sort-nil (x ∷ xs) h = absurd (insert_sorted-nil x (sort leb xs) h)

first_occurrences-nil : (xs : List ℕ) → first_occurrences xs ≡ [] → xs ≡ []
unfolding first_occurrences
first_occurrences-nil [] h = refl
first_occurrences-nil (x ∷ xs) h = ground arith

none_filtered : (p : ℕ → Bool) (xs : List ℕ) → filter (λ i. not (p i)) xs ≡ [] → all p xs ≡ true
none_filtered p [] h = refl
none_filtered p (x ∷ xs) h = ground (arith, none_filtered p xs)

module _ (g : Setting) where
  IsSound-at :
      (r : Result Failure ResearchOutcome × g.jobs.State) (o : ResearchOutcome)
      → Given g (IsSound g) r
      → r.0 ≡ ok o
      → IsSound g o
  IsSound-at (ok o', s) o h e = subst (IsSound g) (ok_injective o' o e) h
  IsSound-at (err x, s) o h e = ground arith

  reported :
      (o : ResearchOutcome) (report : ResearchReport)
      → IsSound g o
      → o.report ≡ some report
      → IsReported g o report
  reported o report (inl (e, _)) h = absurd (some-none (sym h ∙ e))
  reported o report (inr (r, behind)) h =
      let (_, _, _, e, _, _, _, _, _) = behind in
      subst (IsReported g o) (some_injective (sym e ∙ h)) behind

  pub run-IsReported :
      (job : ResearchJob) (s : g.jobs.State) (o : ResearchOutcome) (report : ResearchReport)
      → (run_research_job g job s).0 ≡ ok o
      → o.report ≡ some report
      → IsReported g o report
  run-IsReported job s o report e h =
      reported o report (IsSound-at (run_research_job g job s) o (Gives-run g job s) e) h

  completed_report :
      (o : ResearchOutcome)
      → IsSound g o
      → o.job.status ≡ completed
      → (report : ResearchReport) × IsReported g o report
  completed_report o (inl (_, inl e)) h = absurd (partial-completed (sym e ∙ h))
  completed_report o (inl (_, inr e)) h = absurd (failed-completed (sym e ∙ h))
  completed_report o (inr r) h = r

  empty_shortfalls :
      (unmet : List String) (report : ResearchReport) (evidence : List EvidenceRecord)
      → shortfalls_of g unmet report evidence ≡ []
      → (report.omitted_because ≡ [])
        × (all
              (λ i. elem i (map (λ (r : EvidenceRecord). r.id) evidence))
              (cited_evidence_ids g.citations report)
            ≡ true)
  unfolding shortfalls_of missing_citations unsupported_citations
  empty_shortfalls unmet report evidence h =
      let (_, no_omission, no_missing) = empty_lists _ _ _ h in
      (
        empty_map _ report.omitted_because no_omission,
        none_filtered (λ i. elem i (map (λ (r : EvidenceRecord). r.id) evidence))
            (cited_evidence_ids g.citations report)
            (first_occurrences-nil _ (sort-nil _ (empty_map _ _ no_missing))),
      )

-- An outcome with a report: the report activity wrote it from the evidence of the outcome, which is
-- not empty, and from a review of that same evidence by the critic, who called for no reviewer, or
-- whose review a reviewer approved.
pub run_research_job-reviewed :
    (g : Setting) (job : ResearchJob) (s : g.jobs.State) (o : ResearchOutcome)
    (report : ResearchReport)
    → (run_research_job g job s).0 ≡ ok o
    → o.report ≡ some report
    → (critique : CriticReview) × (written : ResearchJob) × IsCleared g o.evidence critique
      × (is_empty o.evidence ≡ false)
      × (g.activities.report written critique o.evidence ≡ ok report)
run_research_job-reviewed g job s o report e h =
    let (critique, written, _, _, cleared, some_evidence, answer, _, _) =
      run-IsReported g job s o report e h in
    (critique, written, cleared, some_evidence, answer)

-- A completed outcome has a report that omits nothing and cites only evidence of the outcome, and
-- where there is somewhere to export to, the report was exported, with no shortfall.
pub run_research_job-completed :
    (g : Setting) (job : ResearchJob) (s : g.jobs.State) (o : ResearchOutcome)
    → (run_research_job g job s).0 ≡ ok o
    → o.job.status ≡ completed
    → (report : ResearchReport) × (written : ResearchJob) × (o.report ≡ some report)
      × (report.omitted_because ≡ [])
      × (all
            (λ i. elem i (map (λ (r : EvidenceRecord). r.id) o.evidence))
            (cited_evidence_ids g.citations report)
          ≡ true)
      × IsPublished g written report [] o.publication
run_research_job-completed g job s o e h =
    let (report, (critique, written, unmet, has_report, _, _, _, published, closed)) =
      completed_report g o (IsSound-at g (run_research_job g job s) o (Gives-run g job s) e) h in
    let whole = closed h in
    let (no_omission, supported) = empty_shortfalls g unmet report o.evidence whole in
    (
      report,
      written,
      has_report,
      no_omission,
      supported,
      subst (λ l. IsPublished g written report l o.publication) whole published,
    )
