-- ===== src/Base/Members.antt =====
-- The library's `Mem` for the lists of `Lists`.
use mathlib.Core.Path.{◌≡◌, subst}
use mathlib.Core.Logic.Or
use mathlib.Core.HLevel.{×_prop}
use mathlib.Core.Logic.{inl, inr}
use mathlib.Core.Bool.{Bool, true, Bool-set}
use mathlib.Core.List.{
  List, [], ◌∷◌, Mem, Mem-prop, mem-cons, not-mem-nil, mem-cons_self, mem-cons_of_mem,
}
use secure_mcp_multi_agent_r.Base.Tests.{Bool-cases}
use secure_mcp_multi_agent_r.Base.Lists.{filter}

module _ {A : Type 0} (p : A → Bool) where
  pub mem-filter_of : (x : A) (xs : List A) → Mem x xs → p x ≡ true → Mem x (filter p xs)
  mem-filter_of x [] m h = m
  mem-filter_of x (y ∷ ys) m h =
      Or.elim Mem-prop (mem-cons.0 m)
        (λ e. let hy : p y ≡ true = subst (λ z. p z ≡ true) e h in rw hy (rw e mem-cons_self))
        (λ older.
          let rest = mem-filter_of x ys older h in
          elim (Bool-cases (p y)) [ inl t ↦ rw t (mem-cons_of_mem y rest) | inr f ↦ rw f rest ])

  pub of_mem-filter : (x : A) (xs : List A) → Mem x (filter p xs) → Mem x xs × (p x ≡ true)
  of_mem-filter x [] m = absurd (not-mem-nil m)
  of_mem-filter x (y ∷ ys) m = elim (Bool-cases (p y)) [
    | inl t ↦
        Or.elim (×_prop Mem-prop (Bool-set _ _)) (mem-cons.0 (rw t at m))
          (λ e. (rw e mem-cons_self, rw e t))
          (λ older.
            let (there, holds) = of_mem-filter x ys older in (mem-cons_of_mem y there, holds))
    | inr f ↦
        let (there, holds) = of_mem-filter x ys (rw f at m) in (mem-cons_of_mem y there, holds)
  ]
