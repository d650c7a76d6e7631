-- ===== src/Domain/Job/Progress.antt =====
-- About `ResearchJob.transition_to` of src/research_platform/domain/models.py: sequences of calls.
use secure_mcp_multi_agent_r.Base.{
  ℕ, ◌≡◌, refl, subst, true, ◌≤◌, Option, none, some, List, [], ◌∷◌, map, arith, String, char_count,
  char_count-take_chars, Result, ok, ◌>>=◌, >>=-eq-ok,
}
use secure_mcp_multi_agent_r.Domain.Status.{
  JobStatus, created, planning, researching, analyzing, reporting, completed, may_move, is_terminal,
  may_move-terminal,
}
use secure_mcp_multi_agent_r.Domain.Status.Stages.{visits, stages_left, visits-may_move}
use secure_mcp_multi_agent_r.Domain.Job.{
  JobUsage, ResearchJob, InvalidStateTransition, status_detail_limit, transition_to, kept_detail,
}

-- One call of `transition_to`, with its arguments and the time of the call.
pub record Move : Type 0 where
  pub target : JobStatus
  pub detail : Option String
  pub usage : Option JobUsage
  pub now : ℕ

unfoldable pub apply_move : ResearchJob → Move → Result InvalidStateTransition ResearchJob
apply_move job m = transition_to job m.target m.detail m.usage m.now

-- The calls in turn; the first refusal ends them.
unfoldable pub apply_moves : ResearchJob → List Move → Result InvalidStateTransition ResearchJob
apply_moves job [] = ok job
apply_moves job (m ∷ ms) = apply_move job m >>= λ next. apply_moves next ms

abbrev pub targets : List Move → List JobStatus
targets ms = map (λ m. m.target) ms

module _ (job : ResearchJob) (m : Move) {next : ResearchJob}
    (moved : apply_move job m ≡ ok next) where
  pub move-allowed : may_move job.status m.target ≡ true
  unfolding apply_move transition_to
  move-allowed = ground arith

  pub move-status : next.status ≡ m.target
  unfolding apply_move transition_to
  move-status = ground arith

visits-left :
    (job : ResearchJob) (ms : List Move) {final : ResearchJob}
    → apply_moves job ms ≡ ok final
    → final.status ≡ completed
    → visits (stages_left job.status) (targets ms) ≡ true
unfolding apply_moves
visits-left job [] h done = unfold visits in ground arith
visits-left job (m ∷ ms) h done =
    let (next, moved, rest) = >>=-eq-ok (apply_move job m) (λ next. apply_moves next ms) h in
    visits-may_move job.status m.target (targets ms) (move-allowed job m moved) (
      subst (λ s. visits (stages_left s) (targets ms) ≡ true) (move-status job m moved)
        (visits-left next ms rest done))

-- A job that starts as created and ends as completed has been planned, researched, analyzed and
-- reported in this order: no sequence of transitions skips a stage.
pub completed-visits_stages :
    (job : ResearchJob) (ms : List Move) {final : ResearchJob}
    → job.status ≡ created
    → apply_moves job ms ≡ ok final
    → final.status ≡ completed
    → visits (planning ∷ researching ∷ analyzing ∷ reporting ∷ completed ∷ []) (targets ms) ≡ true
completed-visits_stages job ms fresh h done =
    subst (λ s. visits (stages_left s) (targets ms) ≡ true) fresh (visits-left job ms h done)

-- Nothing follows a terminal status: any call of `transition_to` on such a job raises.
pub terminal_job_stays :
    (job : ResearchJob) (ms : List Move) {final : ResearchJob}
    → is_terminal job.status ≡ true
    → apply_moves job ms ≡ ok final
    → ms ≡ []
unfolding apply_moves apply_move transition_to
terminal_job_stays job [] ended h = refl
terminal_job_stays job (m ∷ ms) ended h = ground (arith, may_move-terminal job.status m.target)

kept_detail-le :
    (detail : Option String) {kept : String}
    → kept_detail detail ≡ some kept
    → char_count kept ≤ status_detail_limit
unfolding kept_detail
kept_detail-le none h = cc
kept_detail-le (some detail) h = ground (arith, char_count-take_chars status_detail_limit detail)
