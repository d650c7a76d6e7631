-- ===== src/Domain/Tasks/Lifecycle.antt =====
-- About `transition_to` and `retry` of src/research_platform/domain/tasks.py: sequences of calls.
use secure_mcp_multi_agent_r.Base.{
  ℕ, ◌+◌, ◌≡◌, ◌≤◌, List, [], ◌∷◌, arith, Result, ok, ◌>>=◌, >>=-eq-ok,
}
use secure_mcp_multi_agent_r.Domain.Tasks.{ResearchTask, TaskState, TaskError, transition_to, retry}

-- One call on a task: a transition, or a retry.
pub data TaskCall : Type 0 where
  move : (target : TaskState) (now : ℕ) → TaskCall
  again : (now : ℕ) → TaskCall

unfoldable pub apply_call : ResearchTask → TaskCall → Result TaskError ResearchTask
apply_call task (move target now) = transition_to task target now
apply_call task (again now) = retry task now

unfoldable pub apply_calls : ResearchTask → List TaskCall → Result TaskError ResearchTask
apply_calls task [] = ok task
apply_calls task (c ∷ cs) = apply_call task c >>= λ next. apply_calls next cs

-- How many of the calls are retries.
abbrev pub retries : List TaskCall → ℕ
retries [] = 0
retries (move target now ∷ cs) = retries cs
retries (again now ∷ cs) = 1 + retries cs

apply_call-counts :
    (task : ResearchTask) (c : TaskCall) {next : ResearchTask}
    → apply_call task c ≡ ok next
    → task.retry_count ≤ task.max_retries
    → (next.retry_count ≡ task.retry_count + retries (c ∷ []))
      × (next.max_retries ≡ task.max_retries)
      × (next.retry_count ≤ next.max_retries)
unfolding apply_call transition_to retry
apply_call-counts task (move target now) h within = ground arith
apply_call-counts task (again now) h within = ground arith

-- However a task within its retry budget is moved and retried, if all these calls succeed, the
-- retries are counted one by one and stay within the budget.
pub retries-within_budget :
    (task : ResearchTask) (cs : List TaskCall) {final : ResearchTask}
    → task.retry_count ≤ task.max_retries
    → apply_calls task cs ≡ ok final
    → (final.retry_count ≡ task.retry_count + retries cs) × (final.retry_count ≤ task.max_retries)
unfolding apply_calls
retries-within_budget task [] within h = ground arith
retries-within_budget task (c ∷ cs) within h =
    let (next, called, rest) = >>=-eq-ok (apply_call task c) (λ next. apply_calls next cs) h in
    let (counted, same, still) = apply_call-counts task c called within in
    let (total, bound) = retries-within_budget next cs still rest in join c counted same total bound
  where
    join :
        (c : TaskCall) {n m r : ℕ}
        → n ≡ task.retry_count + retries (c ∷ [])
        → m ≡ task.max_retries
        → r ≡ n + retries cs
        → r ≤ m
        → (r ≡ task.retry_count + retries (c ∷ cs)) × (r ≤ task.max_retries)
    join (move target now) p q s t = omega arith
    join (again now) p q s t = omega arith
