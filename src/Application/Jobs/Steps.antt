-- ===== src/Application/Jobs/Steps.antt =====
-- About the service of src/research_platform/application/jobs.py: what one call does to the
-- stored jobs.
use secure_mcp_multi_agent_r.Base.{
  ℕ, ◌≡◌, refl, sym, subst, ◌∙◌, ◌⊎◌, inl, inr, true, arith, nat_eq, text_eq, pair_eq, pair_beq_iff,
  List, [], String, Dict, get, put, get-put, get-empty, Option, some, ok, beq_refl, Result-cases,
  Bool-cases,
}
use secure_mcp_multi_agent_r.Domain.Status.{JobStatus, may_move}
use secure_mcp_multi_agent_r.Domain.Access.{AccessClass}
use secure_mcp_multi_agent_r.Domain.Job.{
  ResearchJob, JobUsage, transition_to, with_checkpoint, job_in_bounds, invalid_state_transition,
}
use secure_mcp_multi_agent_r.Domain.Invocations.{ToolInvocation}
use secure_mcp_multi_agent_r.Domain.Evidence.{EvidenceRecordCreate, Finding}
use secure_mcp_multi_agent_r.Application.Jobs.{
  Store, Key, ReportPublication, ResearchJobCreate, add_job, get_job, update_job, create, new_job,
  transition, record_checkpoint, add_evidence, store_evidence, record_invocation, record_findings,
  replace_findings, record_publication,
}
use secure_mcp_multi_agent_r.Application.Jobs.Reached.{
  ServiceCall, creating, moving, marking, citing, auditing, judging, publishing, tenant_of, draws,
  kept, after_call,
}

-- Each job stands under its own tenant and identifier.
pub record IsKeyed (d : Dict Key ResearchJob) : Type 0 where
  pub own :
      (tenant_id : String) (job_id : ℕ) (job : ResearchJob)
      → get d (tenant_id, job_id) ≡ some job
      → (job.tenant_id ≡ tenant_id) × (job.id ≡ job_id)

-- A new repository holds no jobs.
pub empty-IsKeyed : IsKeyed []
empty-IsKeyed = record { own = λ t i job e. absurd (none_there (t, i) job e) }
  where
    none_there : (k : Key) (job : ResearchJob) → get {V = ResearchJob} [] k ≡ some job → ⊥
    none_there k job e = cc (e, get-empty {V = ResearchJob} k)

pub IsKeyed-put :
    (d : Dict Key ResearchJob) (job : ResearchJob)
    → IsKeyed d
    → IsKeyed (put d (job.tenant_id, job.id) job)
IsKeyed-put d job h = record {
  own = λ t i found e. ground (
    arith,
    get-put d (job.tenant_id, job.id) (t, i) job,
    pair_beq_iff (job.tenant_id, job.id) (t, i),
    h.own t i found,
    e,
  );
}

-- Where a stored job comes from: it was just created, or it replaces itself with the same status
-- or one that the status machine allows.
abbrev pub ComesFrom : Dict Key ResearchJob → ServiceCall → ResearchJob → Type 0
ComesFrom d c job =
    (draws c job.id ≡ true)
    ⊎ ((old : ResearchJob) × (get d (job.tenant_id, job.id) ≡ some old)
        × ((job.status ≡ old.status) ⊎ (may_move old.status job.status ≡ true)))

-- What a call does to the stored jobs: nothing, or it writes one job of the call's tenant.
abbrev pub JobsStep : Store → ServiceCall → Store → Type 0
JobsStep s c s' =
    (s'.jobs ≡ s.jobs)
    ⊎ ((job : ResearchJob) × (s'.jobs ≡ put s.jobs (job.tenant_id, job.id) job)
        × (job.tenant_id ≡ tenant_of c)
        × ComesFrom s.jobs c job)

pub get_job-eq-ok :
    (s : Store) (tenant_id : String) (job_id : ℕ) {job : ResearchJob}
    → get_job s tenant_id job_id ≡ ok job
    → get s.jobs (tenant_id, job_id) ≡ some job
unfolding get_job
get_job-eq-ok s tenant_id job_id h = ground arith

-- A rewritten job is stored, since it has the key of the one that was read.
update_job-JobsStep :
    (s : Store) (c : ServiceCall) (tenant_id : String) (job_id : ℕ) (old job : ResearchJob)
    → IsKeyed s.jobs
    → tenant_of c ≡ tenant_id
    → get s.jobs (tenant_id, job_id) ≡ some old
    → job.tenant_id ≡ old.tenant_id
    → job.id ≡ old.id
    → (job.status ≡ old.status) ⊎ (may_move old.status job.status ≡ true)
    → JobsStep s c (kept s (update_job s job))
unfolding update_job
update_job-JobsStep s c tenant_id job_id old job keyed mine there same_tenant same_id from =
    let (a, b) = keyed.own tenant_id job_id old there in
    let key : (job.tenant_id, job.id) ≡ (tenant_id, job_id) = cc (a, b, same_tenant, same_id) in
    let found : get s.jobs (job.tenant_id, job.id) ≡ some old =
      subst (λ (k : Key). get s.jobs k ≡ some old) (sym key) there in
    inr (job, rw (found, update_job, kept), (same_tenant ∙ a ∙ sym mine), inr (old, found, from))

pub transition_to-facts :
    (old : ResearchJob) (target : JobStatus) (detail : Option String) (usage : Option JobUsage)
    (now : ℕ) {next : ResearchJob}
    → transition_to old target detail usage now ≡ ok next
    → (next.tenant_id ≡ old.tenant_id)
      × (next.id ≡ old.id)
      × (may_move old.status next.status ≡ true)
unfolding transition_to
transition_to-facts old target detail usage now h = ground arith

module _ (s : Store) (c : ServiceCall) (keyed : IsKeyed s.jobs) where
  transition-JobsStep :
      (tenant_id : String) (job_id : ℕ) (target : JobStatus) (detail : Option String)
      (usage : Option JobUsage) (now : ℕ)
      → tenant_of c ≡ tenant_id
      → JobsStep s c (kept s (transition s tenant_id job_id target detail usage now))
  unfolding transition
  transition-JobsStep tenant_id job_id target detail usage now mine =
      elim (Result-cases (get_job s tenant_id job_id)) [
        | inr (e, missing) ↦ rw (missing, transition, kept) (inl refl)
        | inl (old, there) ↦ elim (Result-cases (transition_to old target detail usage now)) [
          | inr (invalid_state_transition a b, refused) ↦
              rw (there, transition, kept) (rw (refused, transition, kept) (inl refl))
          | inl (next, moved) ↦
              let facts = transition_to-facts old target detail usage now moved in
              rw (there, transition, kept)
                (rw (moved, transition, kept)
                  (update_job-JobsStep s c tenant_id job_id old next keyed mine
                    (get_job-eq-ok s tenant_id job_id there) facts.0 facts.1 (inr facts.2)))
        ]
      ]

  record_checkpoint-JobsStep :
      (tenant_id : String) (job_id : ℕ) (workflow_id workflow_run_id : String) (now : ℕ)
      → tenant_of c ≡ tenant_id
      → JobsStep s c (kept s (record_checkpoint s tenant_id job_id workflow_id workflow_run_id now))
  unfolding record_checkpoint with_checkpoint
  record_checkpoint-JobsStep tenant_id job_id workflow_id workflow_run_id now mine =
      elim (Result-cases (get_job s tenant_id job_id)) [
        | inr (e, missing) ↦ rw (missing, record_checkpoint, kept) (inl refl)
        | inl (old, there) ↦
            rw (there, record_checkpoint, kept)
              (update_job-JobsStep s c tenant_id job_id old
                (with_checkpoint old workflow_id workflow_run_id now) keyed mine
                (get_job-eq-ok s tenant_id job_id there) refl refl (inl refl))
      ]

  -- Creating writes a job that draws its identifier; the other calls leave the jobs alone.
  create-JobsStep :
      (tenant_id requester_id : String) (command : ResearchJobCreate) (clearance : AccessClass)
      (fresh_id now : ℕ)
      → tenant_of c ≡ tenant_id
      → draws c fresh_id ≡ true
      → JobsStep s c (kept s (create s tenant_id requester_id command clearance fresh_id now))
  unfolding create add_job
  create-JobsStep tenant_id requester_id command clearance fresh_id now mine drawn =
      let job = new_job tenant_id requester_id command clearance fresh_id now in
      elim (Bool-cases (job_in_bounds job)) [
        | inl fine ↦ rw (fine, create, kept) (inr (job, refl, sym mine, inl drawn))
        | inr bad ↦ rw (bad, create, kept) (inl refl)
      ]

module _ (s : Store) where
  pub jobs-add_evidence :
      (tenant_id : String) (job_id : ℕ) (command : EvidenceRecordCreate) (fresh_id now : ℕ)
      → (kept s (add_evidence s tenant_id job_id command fresh_id now)).jobs ≡ s.jobs
  unfolding add_evidence store_evidence
  jobs-add_evidence tenant_id job_id command fresh_id now = ground arith

  jobs-record_invocation : (i : ToolInvocation) → (record_invocation s i).jobs ≡ s.jobs
  unfolding record_invocation
  jobs-record_invocation i = ground arith

  pub jobs-record_findings :
      (tenant_id : String) (job_id : ℕ) (fresh : ℕ → ℕ) (now : ℕ) (findings : List Finding)
      → (kept s (record_findings s tenant_id job_id fresh now findings)).jobs ≡ s.jobs
  unfolding record_findings replace_findings
  jobs-record_findings tenant_id job_id fresh now findings = ground arith

  jobs-record_publication :
      (p : ReportPublication) → (kept s (record_publication s p)).jobs ≡ s.jobs
  unfolding record_publication
  jobs-record_publication p = ground arith

  pub after_call-JobsStep : (c : ServiceCall) → IsKeyed s.jobs → JobsStep s c (after_call s c)
  unfolding after_call
  after_call-JobsStep (creating t r command clearance i now) keyed =
      create-JobsStep s (creating t r command clearance i now) keyed t r command clearance i now
        refl (beq_refl i)
  after_call-JobsStep (moving t i target detail usage now) keyed =
      transition-JobsStep s (moving t i target detail usage now) keyed t i target detail usage now
        refl
  after_call-JobsStep (marking t i w r now) keyed =
      record_checkpoint-JobsStep s (marking t i w r now) keyed t i w r now refl
  after_call-JobsStep (citing t i command fresh_id now) keyed =
      inl (jobs-add_evidence t i command fresh_id now)
  after_call-JobsStep (auditing i) keyed = inl (jobs-record_invocation i)
  after_call-JobsStep (judging t i fresh now findings) keyed =
      inl (jobs-record_findings t i fresh now findings)
  after_call-JobsStep (publishing p) keyed = inl (jobs-record_publication p)

  pub after_call-IsKeyed : (c : ServiceCall) → IsKeyed s.jobs → IsKeyed (after_call s c).jobs
  after_call-IsKeyed c keyed = elim (after_call-JobsStep c keyed) [
    | inl same ↦ subst IsKeyed (sym same) keyed
    | inr (job, written, mine, from) ↦ subst IsKeyed (sym written) (IsKeyed-put s.jobs job keyed)
  ]
