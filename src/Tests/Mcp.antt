-- ===== src/Tests/Mcp.antt =====
-- The theorems on the catalogue, the policy, the breaker, the ledger and the sanitizer.
use mathlib.Core.List.{Mem}
use secure_mcp_multi_agent_r.Base.{
  ◌≡◌, ◌≢◌, ◌≤◌, ◌<◌, ◌↔◌, ◌⊎◌, min, ◌-◌, ◌+◌, refl, true, false, not, All, some, [], ◌∷◌, ok, err,
  all, text_pair_eq, text_eq, nat_eq, get, get_or, put, arith,
}
use secure_mcp_multi_agent_r.Domain.Job.{total_tokens}
use secure_mcp_multi_agent_r.Mcp.Registry.{
  Capability, Registry, is_available_to_tenant, is_visible_to, register, register_all, resolve_for,
  discover, is_executable_by,
}
use secure_mcp_multi_agent_r.Mcp.Registry.Discovery.{resolve_for-iff-discover, register_all-found}
use secure_mcp_multi_agent_r.Mcp.Registry.Hiding.{hidden_capability_unobservable}
use secure_mcp_multi_agent_r.Mcp.Policy.{evaluate, evaluate-eq-is_executable_by}
use secure_mcp_multi_agent_r.Mcp.Breaker.{
  circuit_open, assertion_failed, ensure_closed, record_failure,
}
use secure_mcp_multi_agent_r.Mcp.Breaker.Soundness.{
  ensure, fail, after_calls, breaker_never_asserts,
}
use secure_mcp_multi_agent_r.Mcp.Breaker.Opening.{fail_all, ensure_closed-fail_all}
use secure_mcp_multi_agent_r.Mcp.Budgets.{usage, ensure_within, microseconds}
use secure_mcp_multi_agent_r.Mcp.Budgets.Reserving.{tool_calls, reserve_many, reserve_many-grants}
use secure_mcp_multi_agent_r.Mcp.Budgets.Accounting.{
  ensure_within_iff, reserve, after_calls as after_ledger_calls, Grows, ledger_within_budget,
}
use secure_mcp_multi_agent_r.Mcp.Sanitizer.{
  UntrustedContent, sanitize_result, is_hidden, is_control, utf8_length, utf8_width, collapse,
  is_blank, strip_hidden_characters, detect_injection,
}
use secure_mcp_multi_agent_r.Mcp.Sanitizer.Bounded.{sanitize_result_lem}
use secure_mcp_multi_agent_r.Tests.Data.{
  ann, search, foreign_search, catalogue, strict, small_budget, some_arguments,
}

abbrev two_capabilities : Registry
two_capabilities = (("web", "search"), search) ∷ (("web", "foreign"), foreign_search) ∷ []

register_all-found_example :
    All
      (λ (c : Capability). get two_capabilities (c.server, c.name) ≡ some c)
      (search ∷ foreign_search ∷ [])
unfolding register_all register get put
register_all-found_example =
    register_all-found [] (search ∷ foreign_search ∷ []) {r' = two_capabilities} refl

resolve_for-iff-discover_example :
    (resolve_for catalogue ann "web" "search" ≡ ok search) ↔ Mem search (discover catalogue ann)
unfolding get
resolve_for-iff-discover_example = resolve_for-iff-discover catalogue ann search (refl, refl, tt)

hidden_capability_unobservable_example :
    (discover (put catalogue ("web", "foreign") foreign_search) ann ≡ discover catalogue ann)
    × (resolve_for (put catalogue ("web", "foreign") foreign_search) ann "web" "foreign"
        ≡ resolve_for catalogue ann "web" "foreign")
unfolding register get put is_visible_to is_available_to_tenant
hidden_capability_unobservable_example =
    hidden_capability_unobservable catalogue foreign_search ann
      {r' = put catalogue ("web", "foreign") foreign_search} refl refl "web" "foreign"

evaluate-eq-is_executable_by_example :
    (evaluate "v1" (record {
      principal = ann;
      capability = search;
      job_id = 1;
      task_id = 1;
      arguments = some_arguments;
    })).allowed
    ≡ is_executable_by search ann
evaluate-eq-is_executable_by_example = evaluate-eq-is_executable_by "v1" (record {
  principal = ann;
  capability = search;
  job_id = 1;
  task_id = 1;
  arguments = some_arguments;
})

breaker_never_asserts_example :
    ((ensure_closed strict (after_calls strict [] (fail "web" 1 2 ∷ ensure "web" 3 ∷ [])) "web" 4).0
      ≢ err assertion_failed)
    × ((record_failure strict
          (after_calls strict [] (fail "web" 1 2 ∷ ensure "web" 3 ∷ []))
          "web"
          4
          5).0
        ≡ ok tt)
breaker_never_asserts_example =
    breaker_never_asserts strict (omega arith) (fail "web" 1 2 ∷ ensure "web" 3 ∷ []) "web" 4 5

ensure_closed-fail_all_example :
    (ensure_closed strict (fail_all strict "web" [] ((1, 2) ∷ [])) "web" 4).0
    ≡ err (circuit_open "web" 12)
unfolding get get_or
ensure_closed-fail_all_example =
    ensure_closed-fail_all strict "web" (omega arith) [] ((1, 2) ∷ []) 4 refl

reserve_many-grants_example :
    ((reserve_many 3 [] 1 small_budget).0 ≡ min 3 (2 - tool_calls [] 1))
    × (tool_calls (reserve_many 3 [] 1 small_budget).1 1
        ≡ tool_calls [] 1 + (reserve_many 3 [] 1 small_budget).0)
    × (usage (reserve_many 3 [] 1 small_budget).1 2 ≡ usage [] 2)
reserve_many-grants_example = reserve_many-grants 3 [] 1 small_budget 2 (ground arith)

ensure_within_iff_example : (ensure_within [] 1 small_budget ≡ ok tt) ↔ (
    (total_tokens (usage [] 1) < 1_000)
    × ((usage [] 1).cost_usd < 1_000_000)
    × ((usage [] 1).active_seconds < microseconds 30))
ensure_within_iff_example = ensure_within_iff [] 1 small_budget

ledger_within_budget_example :
    (tool_calls
        (after_ledger_calls (λ k. small_budget) [] (reserve 1 ∷ reserve 1 ∷ reserve 1 ∷ []))
        1
      ≤ 2)
    × Grows
        (λ k. small_budget)
        (usage [] 1)
        (usage
          (after_ledger_calls (λ k. small_budget) [] (reserve 1 ∷ reserve 1 ∷ reserve 1 ∷ []))
          1)
unfolding usage get get_or
ledger_within_budget_example =
    ledger_within_budget (λ k. small_budget) [] (reserve 1 ∷ reserve 1 ∷ reserve 1 ∷ []) 1
      (omega arith)

abbrev shown : UntrustedContent
shown = record { text = 104 ∷ 105 ∷ []; byte_length = 2; truncated = false; injection_flags = [] }

sanitize_result_lem_example :
    (2 ≤ 3)
    × (2 ≡ utf8_length (104 ∷ 105 ∷ []))
    × (all (λ c. not (is_hidden (λ c. false) c)) (104 ∷ 105 ∷ []) ≡ true)
    × ((false ≡ true)
        ⊎ (104 ∷ 105 ∷ [] ≡ collapse (strip_hidden_characters (λ c. false) (104 ∷ 105 ∷ []))))
unfolding sanitize_result strip_hidden_characters detect_injection is_hidden is_control collapse
    is_blank utf8_length utf8_width
sanitize_result_lem_example =
    sanitize_result_lem (λ c. false) (λ flag t. false) (104 ∷ 105 ∷ []) 3 {content = shown} refl
      refl
