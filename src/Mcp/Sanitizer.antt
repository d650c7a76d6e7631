-- ===== src/Mcp/Sanitizer.antt =====
-- src/research_platform/mcp/sanitizer.py. A text is the list of its code points. The regular
-- expressions of `INJECTION_PATTERNS` and Unicode's category "Cf" are parameters; the two
-- expressions that rewrite the text are written out.
pub mod Bounded
use secure_mcp_multi_agent_r.Base.{
  any, ℕ, ◌+◌, ◌-◌, Bool, true, false, not, ◌&&◌, ◌||◌, leb, ltb, nat_eq, ◌==◌, List, [], ◌∷◌, ◌++◌,
  length, filter, is_empty, Result, ok, err, refuse_if, ◌>>=◌, ◌>>◌, if◌then◌else◌,
}

pub data InjectionFlag : Type 0 where
  instruction_override role_impersonation chat_template_marker : InjectionFlag
  tool_directive credential_request hidden_characters : InjectionFlag

abbrev pub Text : Type 0
Text = List ℕ

pub record UntrustedContent : Type 0 where
  pub text : Text
  pub byte_length : ℕ
  pub truncated : Bool
  pub injection_flags : List InjectionFlag

unfoldable pub is_suspicious : UntrustedContent → Bool
is_suspicious c = not (is_empty c.injection_flags)

pub data SanitizerError : Type 0 where
  max_bytes_not_positive unicode_encode_error : SanitizerError

-- `[\x00-\x08\x0b\x0c\x0e-\x1f\x7f]`
unfoldable pub is_control : ℕ → Bool
is_control c = leb c 8 || (c == 11) || (c == 12) || (leb 14 c && leb c 31) || (c == 127)

unfoldable pub is_blank : ℕ → Bool
is_blank c = (c == 32) || (c == 9)

-- A run of `[ \t]{3,}` becomes two spaces; a shorter one stays.
flush : Text → Text
flush run = if leb 3 (length run) then 32 ∷ 32 ∷ [] else run

collapse_from : Text → Text → Text
unfolding flush is_blank
collapse_from run [] = flush run
collapse_from run (c ∷ cs) = elim (is_blank c) [
  | true ↦ collapse_from (run ++ c ∷ []) cs
  | false ↦ flush run ++ c ∷ collapse_from [] cs
]

unfoldable pub collapse : Text → Text
unfolding collapse_from
collapse cs = collapse_from [] cs

-- How many bytes UTF-8 takes for a code point.
unfoldable pub utf8_width : ℕ → ℕ
utf8_width c = if ltb c 128 then 1 else if ltb c 2_048 then 2 else if ltb c 65_536 then 3 else 4

-- The code points that UTF-8 does not encode.
unfoldable pub is_surrogate : ℕ → Bool
is_surrogate c = leb 55_296 c && leb c 57_343

-- `len(text.encode("utf-8"))` of a text without surrogates.
unfoldable pub utf8_length : Text → ℕ
unfolding utf8_width
utf8_length [] = 0
utf8_length (c ∷ cs) = utf8_width c + utf8_length cs

-- `encoded[:n].decode("utf-8", errors="ignore")`: the characters whose bytes are all within the
-- first `n`.
unfoldable pub take_bytes : ℕ → Text → Text
unfolding utf8_width
take_bytes n [] = []
take_bytes n (c ∷ cs) =
    let rest = take_bytes (n - utf8_width c) cs in if leb (utf8_width c) n then c ∷ rest else []

module _ (is_format : ℕ → Bool) where
  -- What `_strip_hidden_characters` removes.
  unfoldable pub is_hidden : ℕ → Bool
  unfolding is_control
  is_hidden c = is_control c || (is_format c && not (c == 10))

  unfoldable pub strip_hidden_characters : Text → Text
  unfolding is_hidden
  strip_hidden_characters cs = filter (λ c. not (is_hidden c)) cs

abbrev pub injection_patterns : List InjectionFlag
injection_patterns =
    instruction_override ∷ role_impersonation ∷ chat_template_marker ∷ tool_directive
    ∷ credential_request ∷ []

unfoldable pub detect_injection : (InjectionFlag → Text → Bool) → Text → List InjectionFlag
detect_injection matches text = filter (λ flag. matches flag text) injection_patterns

module _ (is_format : ℕ → Bool) (matches : InjectionFlag → Text → Bool) where
  unfoldable pub sanitize_result : Text → (max_bytes : ℕ) → Result SanitizerError UntrustedContent
  unfolding strip_hidden_characters detect_injection is_surrogate
  sanitize_result text max_bytes = do
    refuse_if (leb max_bytes 0) max_bytes_not_positive
    let visible = strip_hidden_characters is_format text
    let normalized = collapse visible
    refuse_if (any is_surrogate normalized) unicode_encode_error
    let truncated = ltb max_bytes (utf8_length normalized)
    let kept = if truncated then take_bytes max_bytes normalized else normalized
    let flags = detect_injection matches kept
    ok (record {
      text = kept;
      byte_length = utf8_length kept;
      truncated = truncated;
      -- Removing characters is the only way in which the text can differ from the visible one.
      injection_flags =
          if ltb (length visible) (length text) then flags ++ hidden_characters ∷ [] else flags;
    })
