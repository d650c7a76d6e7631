-- ===== src/Tests/Planning.antt =====
-- The theorems on tasks, at two tasks of which one needs the other.
use mathlib.Core.List.{Perm}
use secure_mcp_multi_agent_r.Base.{
  ◌≡◌, ◌≢◌, ◌≤◌, refl, [], ◌∷◌, ok, err, sort, insert_sorted, arith,
}
use secure_mcp_multi_agent_r.Domain.Tasks.{
  ResearchTask, running, dependency_cycle, out_of_fuel, transition_to, retry,
  allowed_task_transitions, find_dangling, is_ready, rounds, resolve_execution_order,
}
use secure_mcp_multi_agent_r.Domain.Tasks.Lifecycle.{
  move, again, apply_call, apply_calls, retries-within_budget,
}
use secure_mcp_multi_agent_r.Domain.Tasks.Rounds.{resolve_execution_order-terminates}
use secure_mcp_multi_agent_r.Domain.Tasks.Order.{RunsAfter, resolve_execution_order-RunsAfter}
use secure_mcp_multi_agent_r.Domain.Tasks.Permutation.{resolve_execution_order-perm}
use secure_mcp_multi_agent_r.Domain.Tasks.Completeness.{no_cycle_of_order}
use secure_mcp_multi_agent_r.Tests.Data.{task_of, two_tasks, two_tasks_in_order}

abbrev retried_task : ResearchTask
retried_task = record (task_of 1 []) { retry_count = 1; updated_at = 6 }

retries-within_budget_example :
    (retried_task.retry_count ≡ 1) × (retried_task.retry_count ≤ (task_of 1 []).max_retries)
unfolding apply_calls apply_call transition_to retry allowed_task_transitions
retries-within_budget_example =
    retries-within_budget (task_of 1 []) (move running 5 ∷ again 6 ∷ []) {final = retried_task}
      (omega arith) refl

resolve_execution_order-terminates_example : resolve_execution_order two_tasks ≢ err out_of_fuel
resolve_execution_order-terminates_example = resolve_execution_order-terminates two_tasks

two_tasks-resolved : resolve_execution_order two_tasks ≡ ok two_tasks_in_order
unfolding resolve_execution_order rounds find_dangling is_ready sort insert_sorted
two_tasks-resolved = refl

resolve_execution_order-RunsAfter_example : RunsAfter [] two_tasks_in_order
resolve_execution_order-RunsAfter_example =
    resolve_execution_order-RunsAfter two_tasks two_tasks-resolved

resolve_execution_order-perm_example : Perm two_tasks_in_order two_tasks
resolve_execution_order-perm_example =
    resolve_execution_order-perm two_tasks refl two_tasks-resolved

no_cycle_of_order_example : resolve_execution_order two_tasks ≢ err dependency_cycle
unfolding is_ready
no_cycle_of_order_example =
    no_cycle_of_order two_tasks two_tasks_in_order
      (resolve_execution_order-perm two_tasks refl two_tasks-resolved) (refl, (refl, tt))
