-- ===== src/Base/Append.antt =====
-- Python's `+` on texts: what follows a common beginning decides.
use Prim.Native.String.{String, ◌++◌}
use Prim.Native.String.append
use Prim.Native.Char.{Char}
use mathlib.Core.Path.{◌≡◌, sym, ◌∙◌}

pub nil-append : (t : String) → String.[] ++ t ≡ t
nil-append t = λ i. append.nil t i

pub cons-append : (c : Char) (s t : String) → (String.◌∷◌ c s) ++ t ≡ String.◌∷◌ c (s ++ t)
cons-append c s t = λ i. append.cons c s t i

pub append_cancel : (p a b : String) → p ++ a ≡ p ++ b → a ≡ b
append_cancel String.[] a b h = sym (nil-append a) ∙ h ∙ nil-append b
append_cancel (String.◌∷◌ c p) a b h = append_cancel p a b (
    same_rest c (p ++ a) (p ++ b) (sym (λ i. append.cons c p a i) ∙ h ∙ (λ i. append.cons c p b i)))
  where
    same_rest : (c : Char) (s t : String) → String.◌∷◌ c s ≡ String.◌∷◌ c t → s ≡ t
    same_rest c s t e = cc
