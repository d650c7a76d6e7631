-- ===== src/Workflow/Ports/Service.antt =====
-- `AsyncJobs` of src/research_platform/application/jobs.py: the in-process service as the port of
-- `run_research_job`. The n-th call happens at time n and draws its identifiers from `draw n`.
pub mod Laws
use secure_mcp_multi_agent_r.Base.{
  ℕ, suc, ◌≡◌, refl, sym, ◌∙◌, ap, subst, ◌⊎◌, inl, inr, true, false, arith, nat_eq, text_eq,
  pair_eq, pair_beq_iff, String, Option, none, some, List, [], ◌∷◌, Dict, get, get_or, get-put,
  Result, ok, err, is_ok, Result-cases,
}
use secure_mcp_multi_agent_r.Domain.Status.{JobStatus, may_move}
use secure_mcp_multi_agent_r.Domain.Job.{
  ResearchJob, transition_to, InvalidStateTransition, invalid_state_transition,
}
use secure_mcp_multi_agent_r.Domain.Evidence.{EvidenceRecordCreate, EvidenceRecord, Finding}
use secure_mcp_multi_agent_r.Application.Jobs.{
  Store, Key, JobError, job_not_found, not_allowed, invalid_evidence, get_job, update_job,
  transition, add_evidence, record_findings,
}
use secure_mcp_multi_agent_r.Application.Jobs.Reached.{moving, citing, judging, kept, after_call}
use secure_mcp_multi_agent_r.Application.Jobs.Steps.{
  IsKeyed, after_call-IsKeyed, jobs-add_evidence, jobs-record_findings, get_job-eq-ok,
  transition_to-facts,
}
use secure_mcp_multi_agent_r.Workflow.Ports.{Failure, JobsPort, IsReliable}

-- The service, with the number of the next call.
pub record ServiceState : Type 0 where
  pub store : Store
  pub keyed : IsKeyed store.jobs
  pub ticks : ℕ

abbrev pub stored_status : ServiceState → String → ℕ → Option JobStatus
stored_status s t i = elim (get s.store.jobs (t, i)) [ none ↦ none | some job ↦ some job.status ]

abbrev pub error_class : JobError → String
error_class (job_not_found i) = "JobNotFoundError"
error_class (not_allowed a b) = "InvalidStateTransition"
error_class _ = "ValidationError"

-- The exception without its text.
abbrev pub raised_by : JobError → Failure
raised_by e = record {
  itself = record { type_ = none; class_name = error_class e; message = none; rendering = "" };
  cause = none;
}

-- What the call returns: the value that it has stored.
abbrev pub returned :
    {A : Type 0} → Result JobError Store → (Store → Result JobError A) → Result Failure A
returned (err e) read = err (raised_by e)
returned (ok s') read = elim (read s') [ err e ↦ err (raised_by e) | ok a ↦ ok a ]

abbrev pub last_of : {A : Type 0} → JobError → List A → Result JobError A
last_of e [] = err e
last_of e (a ∷ []) = ok a
last_of e (a ∷ b ∷ rest) = last_of e (b ∷ rest)

module _ (draw : (tick position : ℕ) → ℕ) where
  unfoldable pub service_transition :
      ServiceState
      → String
      → ℕ
      → JobStatus
      → Option String
      → Result Failure ResearchJob × ServiceState
  service_transition s t i target detail = (
    returned (transition s.store t i target detail none s.ticks) (λ s'. get_job s' t i),
    record {
      store = after_call s.store (moving t i target detail none s.ticks);
      keyed = after_call-IsKeyed s.store (moving t i target detail none s.ticks) s.keyed;
      ticks = suc s.ticks;
    },
  )

  unfoldable pub service_add_evidence :
      ServiceState
      → String
      → ℕ
      → EvidenceRecordCreate
      → Result Failure EvidenceRecord × ServiceState
  service_add_evidence s t i e =
      let fresh_id = draw s.ticks 0 in
      (
        returned (add_evidence s.store t i e fresh_id s.ticks)
            (λ s'. last_of invalid_evidence (get_or s'.evidence (t, i) [])),
        record {
          store = after_call s.store (citing t i e fresh_id s.ticks);
          keyed = after_call-IsKeyed s.store (citing t i e fresh_id s.ticks) s.keyed;
          ticks = suc s.ticks;
        },
      )

  unfoldable pub service_record_findings :
      ServiceState → String → ℕ → List Finding → Result Failure (Unit {0}) × ServiceState
  service_record_findings s t i fs =
      let fresh = draw s.ticks in
      (
        returned (record_findings s.store t i fresh s.ticks fs) (λ s'. ok tt),
        record {
          store = after_call s.store (judging t i fresh s.ticks fs);
          keyed = after_call-IsKeyed s.store (judging t i fresh s.ticks fs) s.keyed;
          ticks = suc s.ticks;
        },
      )
