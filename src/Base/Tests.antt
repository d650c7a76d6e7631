-- ===== src/Base/Tests.antt =====
-- Boolean tests on the native numbers, the conditional, and the interface of decidable equality.
use Prim.Native.Nat.{ℕ, ◌≤◌, ◌<◌, compare, Ordering}
use Prim.Native.String.{String}
use mathlib.Core.Path.{◌≡◌, refl}
use mathlib.Core.Logic.{◌↔◌, ◌⊎◌, inl, inr}
use mathlib.Core.Bool.{Bool, true, false, ◌&&◌}
use mathlib.Core.Option.{Option, none, some}
use native.Mathlib.Omega.{arith}
use text.Mathlib.Text.{◌==◌ as text_beq}
use text.Mathlib.TextEquality.{eq_iff}

abbrev pub ltb : ℕ → ℕ → Bool
ltb a b = elim (compare a b) [ Ordering.lt ↦ true | _ ↦ false ]

abbrev pub leb : ℕ → ℕ → Bool
leb a b = elim (compare a b) [ Ordering.gt ↦ false | _ ↦ true ]

abbrev pub nat_beq : ℕ → ℕ → Bool
nat_beq a b = elim (compare a b) [ Ordering.eq ↦ true | _ ↦ false ]

infix 1 if◌then◌else◌
abbrev pub if◌then◌else◌ {ℓ} : {A : Type ℓ} → Bool → A → A → A
if true then x else y = x
if false then x else y = y

pub ltb→lt : (a b : ℕ) → ltb a b ≡ true → a < b
ltb→lt a b h = ground arith

pub lt→ltb : (a b : ℕ) → a < b → ltb a b ≡ true
lt→ltb a b h = ground arith

pub leb→le : (a b : ℕ) → leb a b ≡ true → a ≤ b
leb→le a b h = ground arith

pub le→leb : (a b : ℕ) → a ≤ b → leb a b ≡ true
le→leb a b h = ground arith

pub nat_beq_iff : (a b : ℕ) → (nat_beq a b ≡ true) ↔ (a ≡ b)
nat_beq_iff a b = ground arith

pub Bool-cases : (b : Bool) → (b ≡ true) ⊎ (b ≡ false)
Bool-cases true = inl refl
Bool-cases false = inr refl

pub Option-cases {ℓ} : {A : Type ℓ} (o : Option A) → (o ≡ none) ⊎ ((a : A) × (o ≡ some a))
Option-cases none = inl refl
Option-cases (some a) = inr (a, refl)

-- Python's `==` at one type: the test, and that it tells equal values.
pub record Eq {ℓ} (T : Type ℓ) : Type ℓ where
  pub beq : (x y : T) → Bool
  pub beq_iff : (x y : T) → (beq x y ≡ true) ↔ (x ≡ y)

infix 50 ◌==◌
abbrev pub ◌==◌ {ℓ} : {T : Type ℓ} ⦃same : Eq T⦄ (x y : T) → Bool
◌==◌ ⦃same⦄ = same.beq

instance abbrev pub text_eq : Eq String
text_eq = record { beq = text_beq; beq_iff = eq_iff }

instance abbrev pub nat_eq : Eq ℕ
nat_eq = record { beq = nat_beq; beq_iff = nat_beq_iff }

-- A key of two parts, such as a tenant with a job's identifier.
abbrev pub pair_beq : String × ℕ → String × ℕ → Bool
pair_beq (s, m) (t, n) = text_beq s t && nat_beq m n

pub pair_beq_iff : (a b : String × ℕ) → (pair_beq a b ≡ true) ↔ (a ≡ b)
pair_beq_iff (s, m) (t, n) = ground (arith, eq_iff s t, nat_beq_iff m n)

instance abbrev pub pair_eq : Eq (String × ℕ)
pair_eq = record { beq = pair_beq; beq_iff = pair_beq_iff }

abbrev pub text_pair_beq : String × String → String × String → Bool
text_pair_beq (s, m) (t, n) = text_beq s t && text_beq m n

pub text_pair_beq_iff : (a b : String × String) → (text_pair_beq a b ≡ true) ↔ (a ≡ b)
text_pair_beq_iff (s, m) (t, n) = ground (arith, eq_iff s t, eq_iff m n)

instance abbrev pub text_pair_eq : Eq (String × String)
text_pair_eq = record { beq = text_pair_beq; beq_iff = text_pair_beq_iff }

pub beq_refl {ℓ} : {T : Type ℓ} ⦃same : Eq T⦄ (x : T) → (x == x) ≡ true
beq_refl ⦃same⦄ x = (same.beq_iff x x).1 refl
