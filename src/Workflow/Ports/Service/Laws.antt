-- ===== src/Workflow/Ports/Service/Laws.antt =====
-- That `AsyncJobs` of src/research_platform/application/jobs.py is what `run_research_job` relies
-- on.
use secure_mcp_multi_agent_r.Base.{
  ℕ, ◌≡◌, refl, sym, ◌∙◌, ap, subst, ◌⊎◌, inl, inr, true, false, arith, nat_eq, text_eq, pair_eq,
  pair_beq_iff, String, Option, none, some, List, Dict, get, get-put, Result, ok, err, is_ok,
  Result-cases,
}
use secure_mcp_multi_agent_r.Domain.Status.{JobStatus, may_move}
use secure_mcp_multi_agent_r.Domain.Job.{
  ResearchJob, transition_to, InvalidStateTransition, invalid_state_transition,
}
use secure_mcp_multi_agent_r.Domain.Evidence.{EvidenceRecordCreate, Finding}
use secure_mcp_multi_agent_r.Application.Jobs.{
  Store, Key, JobError, get_job, update_job, transition,
}
use secure_mcp_multi_agent_r.Application.Jobs.Reached.{moving, kept, after_call}
use secure_mcp_multi_agent_r.Application.Jobs.Steps.{
  IsKeyed, after_call-IsKeyed, jobs-add_evidence, jobs-record_findings, get_job-eq-ok,
  transition_to-facts,
}
use secure_mcp_multi_agent_r.Workflow.Ports.{Failure, JobsPort, IsReliable}
use secure_mcp_multi_agent_r.Workflow.Ports.Service.{
  ServiceState, stored_status, returned, service_transition, service_add_evidence,
  service_record_findings,
}

-- One transition of the service: it is refused, or the job is stored with the new status.
abbrev Transitions : Dict Key ResearchJob → String → ℕ → JobStatus → Result JobError Store → Type 0
Transitions d t i target (err e) =
    (job : ResearchJob) → get d (t, i) ≡ some job → may_move job.status target ≡ false
Transitions d t i target (ok s') =
    (next : ResearchJob) × (get s'.jobs (t, i) ≡ some next) × (next.status ≡ target)

same_job : {a b : ResearchJob} → some a ≡ some b → a ≡ b
same_job e = cc

not_both :
    (s : Store) (t : String) (i : ℕ) {e : JobError} {job : ResearchJob}
    → get_job s t i ≡ err e
    → get s.jobs (t, i) ≡ some job
    → ⊥
unfolding get_job
not_both s t i missing h = ground arith

transition_to-status :
    (old : ResearchJob) (target : JobStatus) (detail : Option String) (now : ℕ) {next : ResearchJob}
    → transition_to old target detail none now ≡ ok next
    → next.status ≡ target
unfolding transition_to
transition_to-status old target detail now h = ground arith

transition_to-refused :
    (old : ResearchJob) (target : JobStatus) (detail : Option String) (now : ℕ)
    {e : InvalidStateTransition}
    → transition_to old target detail none now ≡ err e
    → may_move old.status target ≡ false
unfolding transition_to
transition_to-refused old target detail now h = ground arith

update_job-Transitions :
    (s : Store) (t : String) (i : ℕ) (target : JobStatus) (next : ResearchJob) {old : ResearchJob}
    → get s.jobs (t, i) ≡ some old
    → next.tenant_id ≡ t
    → next.id ≡ i
    → next.status ≡ target
    → Transitions s.jobs t i target (update_job s next)
unfolding update_job
update_job-Transitions s t i target next there same_tenant same_id reached =
    let key : ◌≡◌ {A = Key} (next.tenant_id, next.id) (t, i) = cc (same_tenant, same_id) in
    rw (key, there, update_job, Transitions)
      (next, ground (arith, get-put s.jobs (t, i) (t, i) next, pair_beq_iff (t, i) (t, i)), reached)

transition-Transitions :
    (s : Store) (keyed : IsKeyed s.jobs) (t : String) (i : ℕ) (target : JobStatus)
    (detail : Option String) (now : ℕ)
    → Transitions s.jobs t i target (transition s t i target detail none now)
unfolding transition
transition-Transitions s keyed t i target detail now = elim (Result-cases (get_job s t i)) [
  | inr (e, missing) ↦
      rw (missing, transition, Transitions) (λ job h. absurd (not_both s t i missing h))
  | inl (old, there) ↦ elim (Result-cases (transition_to old target detail none now)) [
    | inr (invalid_state_transition a b, refused) ↦
        rw (there, transition, Transitions)
          (rw (refused, transition, Transitions)
            (λ job h.
              subst (λ (j : ResearchJob). may_move j.status target ≡ false)
                (same_job (sym (get_job-eq-ok s t i there) ∙ h))
                (transition_to-refused old target detail now refused)))
    | inl (next, moved) ↦
        let (same_tenant, same_id, _) = transition_to-facts old target detail none now moved in
        let found = get_job-eq-ok s t i there in
        let (own_tenant, own_id) = keyed.own t i old found in
        rw (there, transition, Transitions)
          (rw (moved, transition, Transitions)
            (update_job-Transitions s t i target next found (same_tenant ∙ own_tenant)
              (same_id ∙ own_id) (transition_to-status old target detail now moved)))
  ]
]

get_job-stored :
    (s : Store) (t : String) (i : ℕ) {job : ResearchJob}
    → get s.jobs (t, i) ≡ some job
    → get_job s t i ≡ ok job
unfolding get_job
get_job-stored s t i h = rw (h, get_job) refl

stored_at :
    (found : Option ResearchJob) {old : JobStatus}
    → (elim found [ none ↦ none | some job ↦ some job.status ]) ≡ some old
    → (job : ResearchJob) × (found ≡ some job) × (job.status ≡ old)
stored_at none e = ground arith
stored_at (some job) e = (job, refl, ground arith)

stored_job :
    (s : ServiceState) (t : String) (i : ℕ) {old : JobStatus}
    → stored_status s t i ≡ some old
    → (job : ResearchJob) × (get s.store.jobs (t, i) ≡ some job) × (job.status ≡ old)
stored_job s t i e = stored_at (get s.store.jobs (t, i)) e

module _ (s : ServiceState) (t : String) (i : ℕ) (target : JobStatus) where
  abbrev read_back : Store → Result JobError ResearchJob
  read_back s' = get_job s' t i

  -- What a transition of the service means for its answer and for the stored status.
  abbrev Answers : Result JobError Store → Type 0
  Answers r =
      ((is_ok (returned r read_back) ≡ false)
        × (kept s.store r ≡ s.store)
        × ((old : JobStatus) → stored_status s t i ≡ some old → may_move old target ≡ false))
      ⊎ ((next : ResearchJob) × (returned r read_back ≡ ok next)
          × (get (kept s.store r).jobs (t, i) ≡ some next)
          × (next.status ≡ target))

  answers : (r : Result JobError Store) → Transitions s.store.jobs t i target r → Answers r
  answers (err e) h = inl (
    refl,
    refl,
    λ old there.
        let (job, stored, same) = stored_job s t i there in
        subst (λ (st : JobStatus). may_move st target ≡ false) same (h job stored),
  )
  answers (ok s') (next, stored, reached) =
      inr (next, rw (get_job-stored s' t i stored, returned) refl, stored, reached)

not_refused :
    (r : Result Failure ResearchJob) {job : ResearchJob} → r ≡ ok job → is_ok r ≡ false → ⊥
not_refused (ok j) e h = ground arith
not_refused (err x) e h = ground arith

module _ (draw : (tick position : ℕ) → ℕ) (s : ServiceState) (t : String) (i : ℕ)
    (target : JobStatus) (detail : Option String) where
  transition-Answers : Answers s t i target (transition s.store t i target detail none s.ticks)
  transition-Answers =
      answers s t i target (transition s.store t i target detail none s.ticks)
        (transition-Transitions s.store s.keyed t i target detail s.ticks)

  pub service_moved :
      (job : ResearchJob)
      → (service_transition draw s t i target detail).0 ≡ ok job
      → (job.tenant_id ≡ t)
        × (job.id ≡ i)
        × (job.status ≡ target)
        × (stored_status (service_transition draw s t i target detail).1 t i ≡ some target)
  unfolding service_transition after_call
  service_moved job e = elim transition-Answers [
    | inl (refused, _, _) ↦
        absurd (not_refused (service_transition draw s t i target detail).0 e refused)
    | inr (next, answer, stored, reached) ↦
        let same : next ≡ job = cc (answer, e) in
        let after = after_call-IsKeyed s.store (moving t i target detail none s.ticks) s.keyed in
        let (own_tenant, own_id) = after.own t i next stored in
        subst
          (λ (j : ResearchJob).
            (j.tenant_id ≡ t)
            × (j.id ≡ i)
            × (j.status ≡ target)
            × (stored_status (service_transition draw s t i target detail).1 t i ≡ some target))
          same
          (
            own_tenant,
            own_id,
            reached,
            rw (stored, stored_status) (ap (λ (st : JobStatus). some st) reached),
          )
  ]

  pub service_refused :
      is_ok (service_transition draw s t i target detail).0 ≡ false
      → stored_status (service_transition draw s t i target detail).1 t i ≡ stored_status s t i
  unfolding service_transition after_call
  service_refused e = elim transition-Answers [
    | inl (_, same, _) ↦
        ap (λ (st : Store). elim (get st.jobs (t, i)) [ none ↦ none | some job ↦ some job.status ])
          same
    | inr (next, answer, _, _) ↦
        absurd (not_refused (service_transition draw s t i target detail).0 answer e)
  ]

  service_accepts :
      (old : JobStatus)
      → stored_status s t i ≡ some old
      → may_move old target ≡ true
      → is_ok (service_transition draw s t i target detail).0 ≡ true
  unfolding service_transition
  service_accepts old there allowed = elim transition-Answers [
    | inl (_, _, h) ↦ ground (arith, h old there, allowed)
    | inr (next, answer, _, _) ↦ rw answer refl
  ]

status_of_jobs :
    (s s' : ServiceState) (t : String) (i : ℕ)
    → s'.store.jobs ≡ s.store.jobs
    → stored_status s' t i ≡ stored_status s t i
status_of_jobs s s' t i e =
    ap
      (λ (d : Dict Key ResearchJob). elim (get d (t, i)) [
        | none ↦ none
        | some job ↦ some job.status
      ])
      e

module _ (draw : (tick position : ℕ) → ℕ) (s : ServiceState) (t : String) (i : ℕ) where
  pub service_add_evidence_keeps :
      (e : EvidenceRecordCreate)
      → stored_status (service_add_evidence draw s t i e).1 t i ≡ stored_status s t i
  unfolding service_add_evidence after_call
  service_add_evidence_keeps e =
      status_of_jobs s (service_add_evidence draw s t i e).1 t i
        (jobs-add_evidence s.store t i e (draw s.ticks 0) s.ticks)

  pub service_record_findings_keeps :
      (fs : List Finding)
      → stored_status (service_record_findings draw s t i fs).1 t i ≡ stored_status s t i
  unfolding service_record_findings after_call
  service_record_findings_keeps fs =
      status_of_jobs s (service_record_findings draw s t i fs).1 t i
        (jobs-record_findings s.store t i (draw s.ticks) s.ticks fs)

-- The in-process service as a port.
abbrev pub async_jobs : (draw : (tick position : ℕ) → ℕ) → JobsPort
async_jobs draw = record {
  State = ServiceState;
  status_of = stored_status;
  transition = service_transition draw;
  add_evidence = service_add_evidence draw;
  record_findings = service_record_findings draw;
  moved = service_moved draw;
  refused = service_refused draw;
  add_evidence_keeps = service_add_evidence_keeps draw;
  record_findings_keeps = service_record_findings_keeps draw;
}

-- The in-process service refuses only what the status machine does not allow.
pub async_jobs-IsReliable : (draw : (tick position : ℕ) → ℕ) → IsReliable (async_jobs draw)
async_jobs-IsReliable draw = record {
  accepts = λ s t i old target detail there allowed.
      service_accepts draw s t i target detail old there allowed;
}
