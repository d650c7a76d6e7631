-- ===== src/Application/Jobs/Isolation.antt =====
-- About the service of src/research_platform/application/jobs.py: the data of other tenants.
use secure_mcp_multi_agent_r.Base.{
  ℕ, ◌≡◌, refl, sym, ap, ◌∙◌, ◌≢◌, inl, inr, arith, nat_eq, text_eq, eq_iff, pair_eq, List, [], ◌∷◌,
  ◌++◌, String, Dict, get, put, get-put, get_or, All, sort, Result-cases,
}
use secure_mcp_multi_agent_r.Domain.Job.{ResearchJob}
use secure_mcp_multi_agent_r.Domain.Evidence.{EvidenceRecord, check_evidence}
use secure_mcp_multi_agent_r.Application.Jobs.{
  Store, Key, add_job, get_job, update_job, create, transition, record_checkpoint, add_evidence,
  store_evidence, record_invocation, record_findings, replace_findings, record_publication,
  finding_records, jobs_of, list_jobs, newest_first, list_evidence, list_invocations, trail,
  list_findings, get_publication,
}
use secure_mcp_multi_agent_r.Application.Jobs.Reached.{
  ServiceCall, creating, moving, marking, citing, auditing, judging, publishing, tenant_of,
  after_call, after_calls,
}
use secure_mcp_multi_agent_r.Application.Jobs.Steps.{
  IsKeyed, after_call-JobsStep, after_call-IsKeyed,
}

jobs_of-put :
    (d : Dict Key ResearchJob) (t u : String) (i : ℕ) (job : ResearchJob)
    → t ≢ u
    → jobs_of (put d (t, i) job) u ≡ jobs_of d u
unfolding jobs_of put
jobs_of-put [] t u i job ne = ground (arith, eq_iff t u)
jobs_of-put (((t', i'), w) ∷ d) t u i job ne =
    ground (arith, eq_iff t u, eq_iff t' t, eq_iff t' u, jobs_of-put d t u i job ne)

get-put_other :
    {V : Type 0} (d : Dict Key V) (t u : String) (i j : ℕ) (v : V)
    → t ≢ u
    → get (put d (t, i) v) (u, j) ≡ get d (u, j)
get-put_other d t u i j v ne = ground (arith, eq_iff t u, get-put d (t, i) (u, j) v)

-- The parts of the store that hold what is said of a tenant's jobs.
abbrev pub SameRecords : String → Store → Store → Type 0
SameRecords u s s' =
    (j : ℕ)
    → (get s'.evidence (u, j) ≡ get s.evidence (u, j))
      × (get s'.invocations (u, j) ≡ get s.invocations (u, j))
      × (get s'.findings (u, j) ≡ get s.findings (u, j))
      × (get s'.publications (u, j) ≡ get s.publications (u, j))

after_call-SameRecords :
    (s : Store) (c : ServiceCall) (u : String) → tenant_of c ≢ u → SameRecords u s (after_call s c)
unfolding after_call create add_job transition update_job record_checkpoint add_evidence
    store_evidence record_invocation record_findings replace_findings record_publication
after_call-SameRecords s (creating t r command clearance i now) u ne j = ground arith
after_call-SameRecords s (moving t i target detail usage now) u ne j = ground arith
after_call-SameRecords s (marking t i w r now) u ne j = ground arith
after_call-SameRecords s (citing t i command fresh_id now) u ne j =
    let rest = get_or s.evidence (t, i) [] in
    elim (Result-cases (check_evidence command now)) [
      | inl (content, e) ↦
          let stored : EvidenceRecord = record {
            content = content;
            id = fresh_id;
            job_id = i;
            tenant_id = t;
            retrieved_at = now;
          } in
          ground (arith, e, get-put_other s.evidence t u i j (rest ++ stored ∷ []) ne)
      | inr (bad, e) ↦ ground (arith, e)
    ]
after_call-SameRecords s (auditing i) u ne j =
    let rest = get_or s.invocations (i.tenant_id, i.job_id) [] in
    ground (arith, get-put_other s.invocations i.tenant_id u i.job_id j (rest ++ i ∷ []) ne)
after_call-SameRecords s (judging t i fresh now findings) u ne j =
    elim (Result-cases (finding_records t i fresh 0 now findings)) [
      | inl (records, e) ↦ ground (arith, e, get-put_other s.findings t u i j records ne)
      | inr (bad, e) ↦ ground (arith, e)
    ]
after_call-SameRecords s (publishing p) u ne j =
    ground (arith, get-put_other s.publications p.tenant_id u p.job_id j p ne)

after_call-jobs :
    (s : Store) (c : ServiceCall) (u : String)
    → IsKeyed s.jobs
    → tenant_of c ≢ u
    → (jobs_of (after_call s c).jobs u ≡ jobs_of s.jobs u)
      × ((j : ℕ) → get (after_call s c).jobs (u, j) ≡ get s.jobs (u, j))
after_call-jobs s c u keyed ne = elim (after_call-JobsStep s c keyed) [
  | inl same ↦ (rw same refl, λ j. rw same refl)
  | inr (job, written, mine, from) ↦
      let other : job.tenant_id ≢ u = λ e. ne (sym mine ∙ e) in
      (
        rw written (jobs_of-put s.jobs job.tenant_id u job.id job other),
        λ j. rw written (get-put_other s.jobs job.tenant_id u job.id j job other),
      )
]

-- All that a tenant can read of the store.
abbrev pub SameReads : String → Store → Store → Type 0
SameReads u s s' =
    (list_jobs s' u ≡ list_jobs s u)
    × ((j : ℕ)
        → (get_job s' u j ≡ get_job s u j)
          × (list_evidence s' u j ≡ list_evidence s u j)
          × (list_invocations s' u j ≡ list_invocations s u j)
          × (list_findings s' u j ≡ list_findings s u j)
          × (get_publication s' u j ≡ get_publication s u j))

after_call-SameReads :
    (s : Store) (c : ServiceCall) (u : String)
    → IsKeyed s.jobs
    → tenant_of c ≢ u
    → SameReads u s (after_call s c)
unfolding list_jobs get_job list_evidence list_invocations trail list_findings get_publication
    get_or
after_call-SameReads s c u keyed ne =
    let (listed, found) = after_call-jobs s c u keyed ne in
    (
      ap (sort newest_first) listed,
      λ j.
          let (a, b, d, e) = after_call-SameRecords s c u ne j in
          let f = found j in
          (
            ground (arith, f),
            ground (arith, f, a),
            ground (arith, f, b),
            ground (arith, f, d),
            ground (arith, f, e),
          ),
    )

-- In a store whose jobs stand under their own tenant and identifier, no calls on the service that
-- other tenants make change what a tenant reads: its list of jobs, each of its jobs, and their
-- evidence, audit trail, findings and publication.
pub after_calls-SameReads :
    (s : Store) (cs : List ServiceCall) (u : String)
    → IsKeyed s.jobs
    → All (λ c. tenant_of c ≢ u) cs
    → SameReads u s (after_calls s cs)
unfolding after_calls
after_calls-SameReads s [] u keyed ne = (refl, λ j. (refl, refl, refl, refl, refl))
after_calls-SameReads s (c ∷ cs) u keyed ne =
    let first = after_call-SameReads s c u keyed ne.0 in
    let rest = after_calls-SameReads (after_call s c) cs u (after_call-IsKeyed s c keyed) ne.1 in
    (
      rest.0 ∙ first.0,
      λ j.
          let (a, b, d, e, f) = rest.1 j in
          let (a', b', d', e', f') = first.1 j in (a ∙ a', b ∙ b', d ∙ d', e ∙ e', f ∙ f'),
    )
