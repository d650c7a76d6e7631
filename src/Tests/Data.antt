-- ===== src/Tests/Data.antt =====
-- The inputs of the tests: one job, its tasks, two capabilities, and a gateway.
use secure_mcp_multi_agent_r.Base.{ℕ, true, false, List, [], ◌∷◌, String, none, some}
use secure_mcp_multi_agent_r.Domain.Access.{public, internal}
use secure_mcp_multi_agent_r.Domain.Status.{created}
use secure_mcp_multi_agent_r.Domain.Job.{ResearchBudget, ResearchJob, no_usage}
use secure_mcp_multi_agent_r.Domain.Tasks.{researcher, ResearchTask, pending}
use secure_mcp_multi_agent_r.Domain.Invocations.{Arguments, text}
use secure_mcp_multi_agent_r.Domain.Approvals.{AttemptedCall}
use secure_mcp_multi_agent_r.Identity.{requester, Principal}
use secure_mcp_multi_agent_r.Mcp.Registry.{Capability, Registry, tool}
use secure_mcp_multi_agent_r.Mcp.Policy.{evaluate}
use secure_mcp_multi_agent_r.Mcp.Breaker.{Config}
use secure_mcp_multi_agent_r.Mcp.Calls.{answered, Call, Parts, State}
use secure_mcp_multi_agent_r.Mcp.Ports.InMemory.{budget_ledger, circuit_breaker}

abbrev pub small_budget : ResearchBudget
small_budget = record {
  max_tool_calls = 2;
  max_tokens = 1_000;
  max_runtime_seconds = 30;
  max_cost_usd = 1_000_000;
}

abbrev pub sample_job : ResearchJob
sample_job = record {
  id = 1;
  tenant_id = "acme";
  requester_id = "ann";
  question = "why?";
  constraints = [];
  source_requirements = [];
  budget = small_budget;
  clearance = internal;
  usage = no_usage;
  status = created;
  status_detail = none;
  workflow_id = none;
  workflow_run_id = none;
  created_at = 0;
  updated_at = 0;
}

abbrev pub task_of : ℕ → List ℕ → ResearchTask
task_of id dependencies = record {
  id = id;
  job_id = 1;
  tenant_id = "acme";
  objective = "look";
  assigned_agent = researcher;
  dependencies = dependencies;
  evidence_requirements = [];
  source_restrictions = [];
  state = pending;
  retry_count = 0;
  max_retries = 2;
  created_at = id;
  updated_at = id;
}

abbrev pub two_tasks : List ResearchTask
two_tasks = task_of 2 (1 ∷ []) ∷ task_of 1 [] ∷ []

abbrev pub two_tasks_in_order : List ResearchTask
two_tasks_in_order = task_of 1 [] ∷ task_of 2 (1 ∷ []) ∷ []

abbrev pub same : String → String
same s = s

abbrev pub zero_digest : Arguments → String
zero_digest a = "sha256:0000000000000000000000000000000000000000000000000000000000000000"

abbrev pub some_arguments : Arguments
some_arguments = ("token", text "t0p") ∷ ("query", text "q") ∷ []

abbrev pub lookup : AttemptedCall
lookup = record {
  mcp_server = "web";
  capability = "search";
  resource_id = "r";
  arguments = some_arguments;
}

abbrev pub ann : Principal
ann = record {
  tenant_id = "acme";
  subject_id = "ann";
  roles = requester ∷ [];
  agent_role = some researcher;
  clearance = internal;
}

abbrev pub search : Capability
search = record {
  server = "web";
  name = "search";
  kind = tool;
  description = "search";
  required_roles = requester ∷ [];
  allowed_agents = researcher ∷ [];
  max_access_class = public;
  side_effecting = false;
  requires_approval = false;
  tenant_scope = "*" ∷ [];
  max_result_bytes = 1_024;
  timeout_ms = 1_000;
}

-- Offered to another tenant only.
abbrev pub foreign_search : Capability
foreign_search = record search { name = "foreign"; tenant_scope = "umbrella" ∷ [] }

abbrev pub catalogue : Registry
catalogue = (("web", "search"), search) ∷ []

abbrev pub strict : Config
strict = record { failure_threshold = 1; cooldown = 10 }

abbrev pub parts : Parts
parts = record {
  lower = same;
  digest = zero_digest;
  is_format = λ c. false;
  matches = λ flag t. false;
  registry = catalogue;
  policy = evaluate "v1";
  executor = λ n request. answered (104 ∷ 105 ∷ []);
  budgets = budget_ledger;
  breaker = circuit_breaker strict;
  sink = λ i. true;
}

abbrev pub nothing_done : State parts
nothing_done = record {
  budgets = [];
  breaker = [];
  sent = [];
  observed = [];
  stored = [];
  permission_denials = 0;
  injection_flags = 0;
}

abbrev pub search_call : Call
search_call = record {
  principal = ann;
  job_id = 1;
  task_id = 1;
  server = "web";
  capability_name = "search";
  arguments = some_arguments;
  budget = small_budget;
  approval = none;
  fresh_id = 7;
  times = record {
    approval_at = 0;
    breaker_at = 0;
    started_at = 0;
    failure_at = 0;
    reopened_at = 0;
    finished_at = 2_000;
    recorded_at = 2_000;
  };
}
