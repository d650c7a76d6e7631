-- ===== src/Base/Errors.antt =====
-- Python's exceptions: a call returns a value or raises one of the errors `E`.
use mathlib.Core.Path.{◌≡◌, refl}
use mathlib.Core.Logic.{◌⊎◌, inl, inr}
use mathlib.Core.Bool.{Bool, true, false}

pub data Result {ℓ} (E V : Type ℓ) : Type ℓ where
  ok : V → Result E V
  err : E → Result E V

infixl 10 ◌>>=◌ ◌>>◌
abbrev pub ◌>>=◌ {ℓ} : {E V W : Type ℓ} → Result E V → (V → Result E W) → Result E W
ok value >>= next = next value
err raised >>= next = err raised

abbrev pub ◌>>◌ {ℓ} : {E V W : Type ℓ} → Result E V → Result E W → Result E W
first >> second = first >>= λ value. second

-- `if not test: raise e`
abbrev pub guard : {E : Type 0} → Bool → E → Result E (Unit {0})
guard test e = elim test [ true ↦ ok tt | false ↦ err e ]

-- `if test: raise e`
abbrev pub refuse_if : {E : Type 0} → Bool → E → Result E (Unit {0})
refuse_if true e = err e
refuse_if false e = ok tt

abbrev pub is_ok {ℓ} : {E A : Type ℓ} → Result E A → Bool
is_ok (ok a) = true
is_ok (err e) = false

pub >>=-eq-ok {ℓ} :
    {E V W : Type ℓ} (first : Result E V) (next : V → Result E W) {w : W}
    → (first >>= next) ≡ ok w
    → (v : V) × (first ≡ ok v) × (next v ≡ ok w)
>>=-eq-ok (ok v) next done = (v, refl, done)
>>=-eq-ok (err raised) next done = cc

pub Result-cases {ℓ} :
    {E A : Type ℓ} (r : Result E A) → ((a : A) × (r ≡ ok a)) ⊎ ((e : E) × (r ≡ err e))
Result-cases (ok a) = inl (a, refl)
Result-cases (err e) = inr (e, refl)
