-- ===== src/Base/Texts.antt =====
-- Python's `len`, slicing and `in` on texts, over their characters.
use Prim.Native.Nat.{ℕ, zero, suc, ◌≤◌}
use Prim.Native.String.{String}
use mathlib.Core.Bool.{Bool, true, false, ◌&&◌, ◌||◌}
use native.Mathlib.Omega.{arith}
use secure_mcp_multi_agent_r.Base.Tests.{leb, nat_beq}
use Prim.Native.Char.{code}

-- `len(s)`
unfoldable pub char_count : String → ℕ
char_count String.[] = 0
char_count (String.◌∷◌ c s) = suc (char_count s)

-- `s[:n]`
unfoldable pub take_chars : ℕ → String → String
take_chars zero s = ""
take_chars (suc n) String.[] = ""
take_chars (suc n) (String.◌∷◌ c s) = String.◌∷◌ c (take_chars n s)

-- `s.startswith(p)`
unfoldable pub has_prefix : String → String → Bool
has_prefix s String.[] = true
has_prefix String.[] (String.◌∷◌ d p) = false
has_prefix (String.◌∷◌ c s) (String.◌∷◌ d p) = nat_beq (code c) (code d) && has_prefix s p

-- `p in s`
unfoldable pub contains : String → String → Bool
unfolding has_prefix
contains String.[] p = has_prefix "" p
contains (String.◌∷◌ c s) p = has_prefix (String.◌∷◌ c s) p || contains s p

-- pydantic's `Field(min_length=low, max_length=high)` on a text.
unfoldable pub length_within : ℕ → ℕ → String → Bool
length_within low high s = leb low (char_count s) && leb (char_count s) high

pub char_count-take_chars : (n : ℕ) (s : String) → char_count (take_chars n s) ≤ n
unfolding char_count take_chars
char_count-take_chars zero s = omega arith
char_count-take_chars (suc n) String.[] = omega arith
char_count-take_chars (suc n) (String.◌∷◌ c s) = omega (arith, char_count-take_chars n s)
