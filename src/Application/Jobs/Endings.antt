-- ===== src/Application/Jobs/Endings.antt =====
-- About the service of src/research_platform/application/jobs.py: jobs that have ended.
use secure_mcp_multi_agent_r.Base.{
  ℕ, ◌≡◌, refl, subst, ap, true, false, arith, ◌==◌, nat_eq, text_eq, pair_eq, pair_beq_iff, List,
  [], ◌∷◌, String, All, get, get-put, some, ok, Bool-cases, inl, inr,
}
use secure_mcp_multi_agent_r.Domain.Status.{is_terminal, may_move-terminal}
use secure_mcp_multi_agent_r.Domain.Job.{ResearchJob}
use secure_mcp_multi_agent_r.Application.Jobs.{Store, Key, get_job}
use secure_mcp_multi_agent_r.Application.Jobs.Reached.{ServiceCall, draws, after_call, after_calls}
use secure_mcp_multi_agent_r.Application.Jobs.Steps.{
  IsKeyed, after_call-JobsStep, after_call-IsKeyed,
}

-- A job under this key with the status of the given one.
abbrev pub Has : Store → String → ℕ → ResearchJob → Type 0
Has s u j job = (now : ResearchJob) × (get s.jobs (u, j) ≡ some now) × (now.status ≡ job.status)

after_call-Has :
    (s : Store) (c : ServiceCall) (u : String) (j : ℕ) (job : ResearchJob)
    → IsKeyed s.jobs
    → is_terminal job.status ≡ true
    → draws c j ≡ false
    → Has s u j job
    → Has (after_call s c) u j job
after_call-Has s c u j job keyed ended free (now, there, same) =
    elim (after_call-JobsStep s c keyed) [
      | inl unchanged ↦ (now, rw unchanged there, same)
      | inr (w, written, mine, from) ↦
          let key : Key = (u, j) in
          let own : Key = (w.tenant_id, w.id) in
          let got = get-put s.jobs own key w in
          elim (Bool-cases (own == key)) [
            | inr other ↦ (now, rw written (ground (arith, got, other, there)), same)
            | inl here ↦
                let is_key : own ≡ key = (pair_beq_iff own key).0 here in
                let status_kept : w.status ≡ job.status = elim from [
                  | inl drawn ↦
                      let id : w.id ≡ j = ap (λ (k : Key). k.1) is_key in
                      absurd (ground (arith, id, drawn, free))
                  | inr (old, found, how) ↦
                      let again : get s.jobs key ≡ some old =
                        subst (λ (k : Key). get s.jobs k ≡ some old) is_key found in
                      ground (
                        arith,
                        again,
                        there,
                        same,
                        how,
                        ended,
                        may_move-terminal old.status w.status,
                      )
                ] in
                (w, rw written (ground (arith, got, here)), status_kept)
          ]
    ]

after_calls-Has :
    (s : Store) (cs : List ServiceCall) (u : String) (j : ℕ) (job : ResearchJob)
    → IsKeyed s.jobs
    → is_terminal job.status ≡ true
    → All (λ c. draws c j ≡ false) cs
    → Has s u j job
    → Has (after_calls s cs) u j job
unfolding after_calls
after_calls-Has s [] u j job keyed ended free h = h
after_calls-Has s (c ∷ cs) u j job keyed ended free h =
    after_calls-Has (after_call s c) cs u j job (after_call-IsKeyed s c keyed) ended free.1
      (after_call-Has s c u j job keyed ended free.0 h)

-- In a store whose jobs stand under their own tenant and identifier, a job with a terminal status
-- is still there with this status after any calls on the service, if none of them creates a job
-- with the same identifier.
pub after_calls-terminal :
    (s : Store) (cs : List ServiceCall) (u : String) (j : ℕ) (job : ResearchJob)
    → IsKeyed s.jobs
    → get_job s u j ≡ ok job
    → is_terminal job.status ≡ true
    → All (λ c. draws c j ≡ false) cs
    → (now : ResearchJob) × (get_job (after_calls s cs) u j ≡ ok now) × (now.status ≡ job.status)
unfolding get_job
after_calls-terminal s cs u j job keyed there ended free =
    let (now, found, same) =
      after_calls-Has s cs u j job keyed ended free (job, ground (arith, there), refl) in
    (now, ground (arith, found), same)
