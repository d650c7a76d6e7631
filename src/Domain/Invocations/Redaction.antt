-- ===== src/Domain/Invocations/Redaction.antt =====
-- About `sanitize_arguments` of src/research_platform/domain/invocations.py.
use secure_mcp_multi_agent_r.Base.{
  ◌≡◌, refl, true, [], ◌∷◌, arith, String, text_eq, eq_iff, get, none, some, if◌then◌else◌,
}
use secure_mcp_multi_agent_r.Domain.Invocations.{
  Arguments, redacted, is_sensitive_argument, sanitize_arguments, same_arguments, value_beq_iff,
}

module _ (lower : String → String) where
  -- Redacting twice is redacting once.
  pub sanitize_arguments_idempotent :
      (a : Arguments)
      → sanitize_arguments lower (sanitize_arguments lower a) ≡ sanitize_arguments lower a
  unfolding sanitize_arguments
  sanitize_arguments_idempotent [] = refl
  sanitize_arguments_idempotent ((name, value) ∷ rest) =
      ground (arith, sanitize_arguments_idempotent rest)

  -- What can be read of redacted arguments: under a credential-shaped name the placeholder and
  -- nothing else, under any other name the value that was given.
  pub get-sanitize_arguments :
      (a : Arguments) (name : String)
      → get (sanitize_arguments lower a) name ≡ (elim (get a name) [
        | none ↦ none
        | some value ↦ some (if is_sensitive_argument lower name then redacted else value)
      ])
  unfolding get sanitize_arguments
  get-sanitize_arguments [] name = refl
  get-sanitize_arguments ((n, v) ∷ rest) name =
      ground (arith, eq_iff n name, get-sanitize_arguments rest name)

  pub same_arguments_refl : (a : Arguments) → same_arguments a a ≡ true
  unfolding same_arguments
  same_arguments_refl [] = refl
  same_arguments_refl ((n, v) ∷ rest) =
      ground (arith, eq_iff n n, value_beq_iff v v, same_arguments_refl rest)

  pub sanitized_passes :
      (a : Arguments)
      → same_arguments
          (sanitize_arguments lower a)
          (sanitize_arguments lower (sanitize_arguments lower a))
        ≡ true
  sanitized_passes a = rw sanitize_arguments_idempotent (same_arguments_refl _)
