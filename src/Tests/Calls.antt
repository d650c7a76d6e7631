-- ===== src/Tests/Calls.antt =====
-- The theorems on the gateway, at one search that is allowed.
use secure_mcp_multi_agent_r.Base.{
  ◌≡◌, ◌≤◌, inr, [], ◌∷◌, arith, get, get_or, if◌then◌else◌, ok, err,
}
use secure_mcp_multi_agent_r.Mcp.Registry.{resolve_for}
use secure_mcp_multi_agent_r.Mcp.Gateway.{invoke}
use secure_mcp_multi_agent_r.Mcp.Gateway.Enforcement.{cleared, request_of, sent-invoke}
use secure_mcp_multi_agent_r.Mcp.Gateway.Metering.{sent_for, invoke_all, invoke_all-IsMetered}
use secure_mcp_multi_agent_r.Mcp.Gateway.Recording.{IsRecorded, invoke-IsRecorded}
use secure_mcp_multi_agent_r.Mcp.Budgets.{usage}
use secure_mcp_multi_agent_r.Tests.Data.{parts, nothing_done, search_call}

sent-invoke_example :
    (invoke parts search_call nothing_done).1.sent
    ≡ (elim (resolve_for parts.registry search_call.principal "web" "search") [
      | err e ↦ []
      | ok capability ↦
          if cleared parts search_call capability nothing_done
          then (1, request_of parts search_call capability) ∷ []
          else []
    ])
sent-invoke_example = sent-invoke parts search_call nothing_done

invoke_all-IsMetered_example :
    sent_for 1 (invoke_all parts (search_call ∷ search_call ∷ search_call ∷ []) nothing_done).sent
    ≤ 2
unfolding usage get get_or
invoke_all-IsMetered_example =
    invoke_all-IsMetered parts 1 2 (search_call ∷ search_call ∷ search_call ∷ []) nothing_done
      (inr (omega arith), (inr (omega arith), (inr (omega arith), tt))) (omega arith, omega arith)

invoke-IsRecorded_example :
    IsRecorded parts
      (invoke parts search_call nothing_done).0
      nothing_done
      (invoke parts search_call nothing_done).1
invoke-IsRecorded_example = invoke-IsRecorded parts search_call nothing_done
