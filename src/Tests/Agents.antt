-- ===== src/Tests/Agents.antt =====
-- The theorems on what the agents hand in, at small inputs.
use secure_mcp_multi_agent_r.Base.{
  ℕ, ◌≡◌, ◌≢◌, refl, true, false, Bool, ◌==◌, nat_eq, text_eq, List, [], ◌∷◌, String, contains,
  length_within, char_count, take_chars, get, put, Option, none, some, Result, ok, err, arith,
  if◌then◌else◌,
}
use secure_mcp_multi_agent_r.Domain.Access.{public}
use secure_mcp_multi_agent_r.Domain.Tasks.{researcher}
use secure_mcp_multi_agent_r.Domain.Evidence.{primary, EvidenceRecordCreate, check_evidence}
use secure_mcp_multi_agent_r.Domain.Invocations.{
  text, other, ToolInvocation, is_digest, allow, succeeded, no_error,
}
use secure_mcp_multi_agent_r.Agents.Contracts.{
  PlannedTask, ResearchPlan, out_of_fuel, EvidenceSubmission, has_repeats, check_plan,
  find_bad_dependency, positioned, reject_cycles, check_submission,
}
use secure_mcp_multi_agent_r.Agents.Contracts.Plans.{
  are_outside, check_plan-acyclic, check_plan-ends,
}
use secure_mcp_multi_agent_r.Agents.Provenance.{
  Texts, EvidenceLedger, EvidenceClaims, record_content, verify_claims,
}
use secure_mcp_multi_agent_r.Agents.Provenance.Tracing.{AreTraced, verify_claims-IsTraced}
use secure_mcp_multi_agent_r.Agents.Validation.{Reading, Exchange, resolve}
use secure_mcp_multi_agent_r.Agents.Validation.Bounded.{IsBounded, resolve-IsBounded}
use secure_mcp_multi_agent_r.Tests.Data.{some_arguments, search}

abbrev step : List ℕ → PlannedTask
step depends_on = record {
  objective = "look";
  assigned_agent = researcher;
  evidence_requirements = "r" ∷ [];
  source_restrictions = [];
  depends_on = depends_on;
}

abbrev two_steps : ResearchPlan
two_steps = record { tasks = step (1 ∷ []) ∷ step [] ∷ []; rationale = "why" }

abbrev nobody : ℕ → Bool
nobody i = false

check_plan-acyclic_example : are_outside nobody (positioned 0 two_steps.tasks) ≡ true
unfolding check_plan length_within char_count find_bad_dependency positioned reject_cycles
check_plan-acyclic_example = check_plan-acyclic two_steps two_steps nobody refl refl

check_plan-ends_example : check_plan two_steps ≢ err out_of_fuel
check_plan-ends_example = check_plan-ends two_steps

abbrev plain : Texts
plain = record {
  composed = λ t. t;
  split = λ t. t ∷ [];
  strip = λ t. t;
  without_slashes = λ t. t;
  rendered = λ v. elim v [ text t ↦ t | other j ↦ j ];
  digest = λ t. "0000000000000000000000000000000000000000000000000000000000000000";
  argument_digest = λ a. "sha256:0000000000000000000000000000000000000000000000000000000000000000";
}

abbrev one_call : ToolInvocation
one_call = record {
  id = 5;
  job_id = 1;
  task_id = 1;
  tenant_id = "acme";
  mcp_server = "web";
  capability = "search";
  sanitized_arguments = [];
  argument_digest = "";
  policy_version = "v1";
  authorization_decision = allow;
  outcome = succeeded;
  error_class = no_error;
  started_at = 0;
  duration_ms = none;
}

abbrev no_content : EvidenceLedger
no_content = []

abbrev one_content : EvidenceLedger
one_content = record_content no_content one_call search some_arguments "It rains a lot."

abbrev one_claim : EvidenceClaims
one_claim = record {
  claims =
      record {
        excerpt = "rains";
        tool_invocation_id = 5;
        title = none;
        author = none;
        published_at = none;
      }
      ∷ [];
  unmet_requirements = [];
}

abbrev rain_record : EvidenceRecordCreate
rain_record = record {
  excerpt = "rains";
  source_uri = "web://search/0000000000000000";
  title = none;
  author = none;
  published_at = none;
  trust_level = primary;
  access_class = public;
  content_hash = "sha256:0000000000000000000000000000000000000000000000000000000000000000";
  producing_task_id = 1;
  tool_invocation_id = 5;
}

abbrev rain_submission : EvidenceSubmission
rain_submission = record { records = rain_record ∷ []; unmet_requirements = [] }

verify_claims-IsTraced_example :
    AreTraced plain one_content 1 one_claim.claims (rain_record ∷ [])
    × (has_repeats (rain_record.content_hash ∷ []) ≡ false)
unfolding verify_claims get put record_content contains check_evidence length_within char_count
    take_chars is_digest check_submission has_repeats
verify_claims-IsTraced_example =
    verify_claims-IsTraced plain one_claim one_content 1 9 rain_submission refl

-- An agent that errs once, and a contract that is a text.
abbrev erring : List Exchange → Option String → Result String String
erring calls correction = ok (elim correction [ none ↦ "bad" | some c ↦ "good" ])

abbrev good_only : Reading String
good_only = record {
  Document = String;
  strip = λ t. t;
  loads = λ t. ok t;
  model_validate = λ t. ok t;
  verify = λ t. if t == "good" then ok tt else err "not good";
}

resolve-IsBounded_example : IsBounded good_only erring 3 (resolve good_only erring 3)
resolve-IsBounded_example = resolve-IsBounded good_only erring 3 (omega arith)
