-- ===== src/Mcp/Sanitizer/Bounded.antt =====
-- About `sanitize_result` of src/research_platform/mcp/sanitizer.py.
use secure_mcp_multi_agent_r.Base.{
  ℕ, ◌-◌, ◌≡◌, refl, ◌≤◌, ◌⊎◌, Bool, true, false, not, nat_eq, [], ◌∷◌, ◌++◌, filter, all, arith,
  ok,
}
use secure_mcp_multi_agent_r.Mcp.Sanitizer.{
  InjectionFlag, Text, UntrustedContent, flush, collapse_from, collapse, utf8_width, utf8_length,
  take_bytes, is_hidden, strip_hidden_characters, sanitize_result,
}

utf8_length-take_bytes : (n : ℕ) (cs : Text) → utf8_length (take_bytes n cs) ≤ n
unfolding utf8_length take_bytes
utf8_length-take_bytes n [] = omega arith
utf8_length-take_bytes n (c ∷ cs) = ground (arith, utf8_length-take_bytes (n - utf8_width c) cs)

all-take_bytes :
    (p : ℕ → Bool) (n : ℕ) (cs : Text) → all p cs ≡ true → all p (take_bytes n cs) ≡ true
unfolding take_bytes
all-take_bytes p n [] h = refl
all-take_bytes p n (c ∷ cs) h = ground (arith, all-take_bytes p (n - utf8_width c) cs)

all-append :
    (p : ℕ → Bool) (xs ys : Text) → all p xs ≡ true → all p ys ≡ true → all p (xs ++ ys) ≡ true
all-append p [] ys h k = k
all-append p (x ∷ xs) ys h k = ground (arith, all-append p xs ys)

all-flush : (p : ℕ → Bool) (run : Text) → p 32 ≡ true → all p run ≡ true → all p (flush run) ≡ true
unfolding flush
all-flush p run space h = ground arith

all-collapse_from :
    (p : ℕ → Bool) (run cs : Text)
    → p 32 ≡ true
    → all p run ≡ true
    → all p cs ≡ true
    → all p (collapse_from run cs) ≡ true
unfolding collapse_from
all-collapse_from p run [] space h k = all-flush p run space h
all-collapse_from p run (c ∷ cs) space h k = ground (
  arith,
  all-collapse_from p (run ++ c ∷ []) cs space,
  all-append p run (c ∷ []),
  all-flush p run space h,
  all-collapse_from p [] cs space,
  all-append p (flush run) (c ∷ collapse_from [] cs),
)

all-filter : (p : ℕ → Bool) (cs : Text) → all p (filter p cs) ≡ true
all-filter p [] = refl
all-filter p (c ∷ cs) = ground (arith, all-filter p cs)

space_shown : (is_format : ℕ → Bool) → is_format 32 ≡ false → not (is_hidden is_format 32) ≡ true
unfolding is_hidden
space_shown is_format h = ground arith

module _ (is_format : ℕ → Bool) (matches : InjectionFlag → Text → Bool) where
  -- A space being no format character: whatever a tool returned, the sanitized text, where there is
  -- one, has no more bytes than allowed, its recorded length is right, no hidden character is left
  -- in it, and it is all of the cleaned text unless it is marked as truncated.
  pub sanitize_result_lem :
      (text : Text) (max_bytes : ℕ) {content : UntrustedContent}
      → is_format 32 ≡ false
      → sanitize_result is_format matches text max_bytes ≡ ok content
      → (content.byte_length ≤ max_bytes)
        × (content.byte_length ≡ utf8_length content.text)
        × (all (λ c. not (is_hidden is_format c)) content.text ≡ true)
        × ((content.truncated ≡ true)
            ⊎ (content.text ≡ collapse (strip_hidden_characters is_format text)))
  unfolding sanitize_result collapse
  sanitize_result_lem text max_bytes space h =
      let shown = λ (c : ℕ). not (is_hidden is_format c) in
      let visible = strip_hidden_characters is_format text in
      let clean =
        all-collapse_from shown [] visible (space_shown is_format space) refl
          (all-filter shown text) in
      ground (
        arith,
        utf8_length-take_bytes max_bytes (collapse visible),
        all-take_bytes shown max_bytes (collapse visible),
        clean,
      )
