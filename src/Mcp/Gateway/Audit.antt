-- ===== src/Mcp/Gateway/Audit.antt =====
-- About `CapabilityGateway.invoke` of src/research_platform/mcp/gateway.py: the records it makes.
use secure_mcp_multi_agent_r.Mcp.Registry.{Capability}
use secure_mcp_multi_agent_r.Mcp.Budgets as Ledger
use secure_mcp_multi_agent_r.Mcp.Calls.{Call, AuditContext, Parts, State}
use secure_mcp_multi_agent_r.Mcp.Gateway.{context_of, decision_on}

module _ (g : Parts) (call : Call) (s : State g) (c : Capability) where
  abbrev context : AuditContext
  context = context_of g call c (decision_on g call c)
