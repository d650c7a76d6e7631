-- ===== src/Domain/Invocations.antt =====
-- src/research_platform/domain/invocations.py: redaction and the audit record of one call.
-- `str.lower` and the SHA-256 digest of the canonical JSON are parameters.
pub mod Redaction
pub mod Records
use secure_mcp_multi_agent_r.Base.{
  ℕ, zero, suc, ◌-◌, ◌≡◌, ◌↔◌, Bool, true, false, not, ◌&&◌, ◌||◌, List, [], ◌∷◌, map, arith,
  nat_beq, leb, Eq, ◌==◌, String, text_eq, text_beq, eq_iff, contains, has_prefix, length_within,
  char_count, any, Dict, Option, none, some, Result, ok, err, guard, refuse_if, ◌>>=◌, ◌>>◌,
  if◌then◌else◌,
}
use Prim.Native.Char.{code}
use Prim.Native.String

-- A value of `dict[str, Any]`: a text, or any other value by its canonical JSON.
pub data Value : Type 0 where
  text : String → Value
  other : (json : String) → Value

abbrev pub value_beq : Value → Value → Bool
value_beq (text s) (text t) = text_beq s t
value_beq (other s) (other t) = text_beq s t
value_beq (text s) (other t) = false
value_beq (other s) (text t) = false

pub value_beq_iff : (a b : Value) → (value_beq a b ≡ true) ↔ (a ≡ b)
value_beq_iff (text s) (text t) = ground (arith, eq_iff s t)
value_beq_iff (other s) (other t) = ground (arith, eq_iff s t)
value_beq_iff (text s) (other t) = ground arith
value_beq_iff (other s) (text t) = ground arith

abbrev pub Arguments : Type 0
Arguments = Dict String Value

abbrev pub redacted : Value
redacted = text "[redacted]"

-- `SENSITIVE_ARGUMENT_NAMES`
abbrev pub sensitive_argument_names : List String
sensitive_argument_names =
    "api_key" ∷ "authorization" ∷ "credential" ∷ "password" ∷ "secret" ∷ "token" ∷ []

unfoldable pub is_sensitive_argument : (String → String) → String → Bool
is_sensitive_argument lower name =
    let lowered = lower name in any (λ marker. contains lowered marker) sensitive_argument_names

unfoldable pub sanitize_arguments : (String → String) → Arguments → Arguments
sanitize_arguments lower [] = []
sanitize_arguments lower ((name, value) ∷ rest) =
    (name, (if is_sensitive_argument lower name then redacted else value))
    ∷ sanitize_arguments lower rest

-- `==` on two dictionaries that list the same names in the same order.
unfoldable pub same_arguments : Arguments → Arguments → Bool
same_arguments [] [] = true
same_arguments ((n, v) ∷ a) ((m, w) ∷ b) = text_beq n m && value_beq v w && same_arguments a b
same_arguments _ _ = false

pub data AuthorizationDecision : Type 0 where
  allow deny : AuthorizationDecision

pub data InvocationOutcome : Type 0 where
  pending succeeded failed denied : InvocationOutcome

pub data ErrorClass : Type 0 where
  no_error policy_denied invalid_arguments upstream_unavailable timeout : ErrorClass
  result_too_large budget_exhausted unexpected : ErrorClass

abbrev pub error_index : ErrorClass → ℕ
error_index no_error = 0
error_index policy_denied = 1
error_index invalid_arguments = 2
error_index upstream_unavailable = 3
error_index timeout = 4
error_index result_too_large = 5
error_index budget_exhausted = 6
error_index unexpected = 7

abbrev pub error_is : ErrorClass → ErrorClass → Bool
error_is a b = nat_beq (error_index a) (error_index b)

abbrev pub outcome_index : InvocationOutcome → ℕ
outcome_index pending = 0
outcome_index succeeded = 1
outcome_index failed = 2
outcome_index denied = 3

abbrev pub outcome_is : InvocationOutcome → InvocationOutcome → Bool
outcome_is a b = nat_beq (outcome_index a) (outcome_index b)

abbrev pub is_deny : AuthorizationDecision → Bool
is_deny deny = true
is_deny allow = false

-- `error_class in RETRYABLE_ERRORS`
unfoldable pub is_retryable : ErrorClass → Bool
is_retryable upstream_unavailable = true
is_retryable timeout = true
is_retryable _ = false

pub record ToolInvocation : Type 0 where
  pub id : ℕ
  pub job_id : ℕ
  pub task_id : ℕ
  pub tenant_id : String
  pub mcp_server : String
  pub capability : String
  pub sanitized_arguments : Arguments
  pub argument_digest : String
  pub policy_version : String
  pub authorization_decision : AuthorizationDecision
  pub outcome : InvocationOutcome
  pub error_class : ErrorClass
  pub started_at : ℕ
  pub duration_ms : Option ℕ

is_hex : ℕ → Bool
is_hex c = (leb b'a' c && leb c b'f') || (leb b'0' c && leb c b'9')

all_hex : ℕ → String → Bool
unfolding is_hex
all_hex zero String.[] = true
all_hex zero (String.◌∷◌ c s) = false
all_hex (suc n) String.[] = false
all_hex (suc n) (String.◌∷◌ c s) = is_hex (code c) && all_hex n s

-- What is left of a text behind a prefix that it has.
drop_chars : ℕ → String → String
drop_chars zero s = s
drop_chars (suc n) String.[] = ""
drop_chars (suc n) (String.◌∷◌ c s) = drop_chars n s

-- `^sha256:[a-f0-9]{64}$`
unfoldable pub is_digest : String → Bool
unfolding all_hex drop_chars
is_digest s = has_prefix s "sha256:" && all_hex 64 (drop_chars 7 s)

-- The `Field` bounds of `ToolInvocation`.
unfoldable pub invocation_in_bounds : ToolInvocation → Bool
invocation_in_bounds i =
    length_within 1 100 i.tenant_id
    && length_within 1 4_000 i.mcp_server
    && length_within 1 4_000 i.capability
    && is_digest i.argument_digest
    && length_within 1 4_000 i.policy_version
    && (elim i.duration_ms [ none ↦ true | some ms ↦ leb ms 86_400_000 ])

pub data InvocationError : Type 0 where
  field_out_of_bounds denied_without_denied_outcome denied_without_policy_error : InvocationError
  refused_without_reason succeeded_with_error failed_without_error unsanitized : InvocationError

-- The validator `denied_calls_cannot_report_success`.
unfoldable pub check_outcome :
    AuthorizationDecision → InvocationOutcome → ErrorClass → Result InvocationError (Unit {0})
check_outcome decision outcome error = do
  refuse_if (is_deny decision && not (outcome_is outcome denied)) denied_without_denied_outcome
  refuse_if (is_deny decision && not (error_is error policy_denied)) denied_without_policy_error
  refuse_if (outcome_is outcome denied && error_is error no_error) refused_without_reason
  refuse_if (outcome_is outcome succeeded && not (error_is error no_error)) succeeded_with_error
  refuse_if (outcome_is outcome failed && error_is error no_error) failed_without_error

-- Constructing a `ToolInvocation`: the bounds, then the validator.
unfoldable pub check_invocation :
    (String → String) → ToolInvocation → Result InvocationError ToolInvocation
unfolding check_outcome
check_invocation lower i = do
  guard (invocation_in_bounds i) field_out_of_bounds
  check_outcome i.authorization_decision i.outcome i.error_class
  guard (same_arguments i.sanitized_arguments (sanitize_arguments lower i.sanitized_arguments))
      unsanitized
  ok i

-- `record_denied_invocation`; the identifier and the time are the defaults' fresh values.
unfoldable pub record_denied_invocation :
    (String → String)
    → (Arguments → String)
    → (id job_id task_id : ℕ) → (tenant_id mcp_server capability : String) → Arguments
    → (policy_version : String) (now : ℕ) → Result InvocationError ToolInvocation
record_denied_invocation lower digest id job_id task_id tenant_id mcp_server capability arguments
      policy_version now =
    check_invocation lower (record {
      id = id;
      job_id = job_id;
      task_id = task_id;
      tenant_id = tenant_id;
      mcp_server = mcp_server;
      capability = capability;
      sanitized_arguments = sanitize_arguments lower arguments;
      argument_digest = digest arguments;
      policy_version = policy_version;
      authorization_decision = deny;
      outcome = denied;
      error_class = policy_denied;
      started_at = now;
      duration_ms = some 0;
    })
