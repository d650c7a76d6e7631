-- ===== src/Agents/Validation.antt =====
-- src/research_platform/agents/validation.py: an agent's contract, with bounded correction. The
-- agent is a parameter that may answer each call as it likes, given all that went before; so are
-- `str.strip`, the JSON parser and the contract's model.
pub mod Bounded
use secure_mcp_multi_agent_r.Base.{
  ℕ, zero, suc, Bool, true, false, ◌==◌, text_eq, leb, List, [], ◌∷◌, ◌++◌, map, length, String,
  Option, none, some, Result, ok, err, ◌>>=◌, ◌>>◌, if◌then◌else◌,
}
use Prim.Native.String.{◌++◌ as ◌<>◌}

abbrev pub default_max_attempts : ℕ
default_max_attempts = 3

-- One entry of `ValidationError.errors()`: the location and the message.
pub record FieldProblem : Type 0 where
  pub loc : List String
  pub msg : String

-- `separator.join(texts)`
unfoldable pub joined_by : (separator : String) → List String → String
joined_by separator [] = ""
joined_by separator (t ∷ []) = t
joined_by separator (t ∷ u ∷ rest) = t <> (separator <> joined_by separator (u ∷ rest))

-- `'.'.join(...) or '(root)'`, and the message.
unfoldable pub describe_problem : FieldProblem → String
unfolding joined_by
describe_problem p =
    let path = joined_by "." p.loc in (if path == "" then "(root)" else path) <> (": " <> p.msg)

unfoldable pub describe_validation_failure : List FieldProblem → String
unfolding joined_by describe_problem
describe_validation_failure problems = joined_by "; " (map describe_problem problems)

-- What the attempt to read a response raises.
pub data Rejection : Type 0 where
  validation_error : List FieldProblem → Rejection
  value_error : (message : String) → Rejection

-- The correction that the next call is given.
unfoldable pub correction_of : Rejection → String
unfolding describe_validation_failure
correction_of (validation_error problems) = describe_validation_failure problems
correction_of (value_error message) = message

-- A call: the correction that it was given and what it answered.
abbrev pub Exchange : Type 0
Exchange = Option String × String

-- How a response is read into a contract `C`: `json.loads`, with the message of its error, the
-- contract's model, and the check that the caller brings.
pub record Reading (C : Type 0) : Type 1 where
  pub Document : Type 0
  pub strip : String → String
  pub loads : String → Result String Document
  pub model_validate : Document → Result (List FieldProblem) C
  pub verify : C → Result String (Unit {0})

pub data CorrectionError (E : Type 0) : Type 0 where
  agent_raised : E → CorrectionError E
  schema_correction_exhausted : (attempts : ℕ) (failures : List String) → CorrectionError E
  no_attempt_allowed : CorrectionError E

module _ {C : Type 0} (r : Reading C) where
  unfoldable pub parse_agent_output : String → Result Rejection C
  parse_agent_output raw =
      let stripped = r.strip raw in
      if stripped == ""
      then err (value_error "the agent returned an empty response")
      else elim (r.loads stripped) [
        | err message ↦ err (value_error ("the agent response is not valid JSON: " <> message))
        | ok document ↦ elim (r.model_validate document) [
          | err problems ↦ err (validation_error problems)
          | ok contract ↦ ok contract
        ]
      ]

  -- The body of the `try`.
  unfoldable pub attempt : String → Result Rejection C
  unfolding parse_agent_output
  attempt raw = parse_agent_output raw >>= λ parsed. elim (r.verify parsed) [
    | err message ↦ err (value_error message)
    | ok _ ↦ ok parsed
  ]

  module _ {E : Type 0} (produce : List Exchange → Option String → Result E String) where
    -- The answer of `resolve`, `self.failures`, and every call that was made.
    abbrev pub Resolved : Type 0
    Resolved = Result (CorrectionError E) C × List String × List Exchange

    -- What follows one response; `next` is the rest of the loop.
    unfoldable pub after_attempt :
        List String → List Exchange → (next : String → Resolved) → Result Rejection C → Resolved
    unfolding correction_of
    after_attempt failures calls next (ok contract) = (ok contract, failures, calls)
    after_attempt failures calls next (err rejection) = next (correction_of rejection)

    -- What follows one call of the agent, which may raise.
    unfoldable pub after_call :
        List String
        → List Exchange
        → Option String
        → (next : List Exchange → String → Resolved) → Result E String
        → Resolved
    unfolding after_attempt attempt
    after_call failures calls correction next (err e) = (err (agent_raised e), failures, calls)
    after_call failures calls correction next (ok raw) =
        let made = calls ++ (correction, raw) ∷ [] in
        after_attempt failures made (next made) (attempt raw)

    -- The loop of `resolve`, by the attempts that are left.
    unfoldable pub resolve_loop :
        (max_attempts left : ℕ) → Option String → List String → List Exchange → Resolved
    unfolding after_call
    resolve_loop max_attempts zero correction failures calls =
        (err (schema_correction_exhausted max_attempts failures), failures, calls)
    resolve_loop max_attempts (suc left) correction failures calls =
        after_call failures calls correction
          (λ made text. resolve_loop max_attempts left (some text) (failures ++ text ∷ []) made)
          (produce calls correction)

    -- `BoundedSchemaCorrection(max_attempts).resolve`
    unfoldable pub resolve : (max_attempts : ℕ) → Resolved
    unfolding resolve_loop
    resolve max_attempts =
        if leb 1 max_attempts
        then resolve_loop max_attempts max_attempts none [] []
        else (err no_attempt_allowed, [], [])

-- `attempts_used`
unfoldable pub attempts_used : List String → ℕ
attempts_used failures = length failures
