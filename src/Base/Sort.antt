-- ===== src/Base/Sort.antt =====
-- Python's `sorted(xs, key=...)`, which is stable, by insertion. `before x y` says that `x` may
-- stand in front of `y`.
use mathlib.Core.Path.{◌≡◌}
use mathlib.Core.Bool.{Bool, true, false}
use mathlib.Core.List.{List, [], ◌∷◌, Perm}
use mathlib.Core.List.Perm
use native.Mathlib.Omega.{arith}
use secure_mcp_multi_agent_r.Base.Tests.{if◌then◌else◌}
use secure_mcp_multi_agent_r.Base.Lists.{All}

module _ {A : Type 0} (before : A → A → Bool) where
  unfoldable pub insert_sorted : A → List A → List A
  insert_sorted x [] = x ∷ []
  insert_sorted x (y ∷ ys) = if before x y then x ∷ y ∷ ys else y ∷ insert_sorted x ys

  unfoldable pub sort : List A → List A
  unfolding insert_sorted
  sort [] = []
  sort (x ∷ xs) = insert_sorted x (sort xs)

  -- Each element may stand in front of the next one.
  abbrev pub IsSorted : List A → Type 0
  IsSorted [] = Unit
  IsSorted (x ∷ []) = Unit
  IsSorted (x ∷ y ∷ ys) = (before x y ≡ true) × IsSorted (y ∷ ys)

  insert_sorted-perm : (x : A) (xs : List A) → Perm (insert_sorted x xs) (x ∷ xs)
  unfolding insert_sorted
  insert_sorted-perm x [] = Perm.refl _
  insert_sorted-perm x (y ∷ ys) =
      let deeper = Perm.trans (Perm.cons y (insert_sorted-perm x ys)) (Perm.swap x y ys) in
      elim (before x y)
        as (λ b. Perm (if b then x ∷ y ∷ ys else y ∷ insert_sorted x ys) (x ∷ y ∷ ys)) [
          | true ↦ Perm.refl _
          | false ↦ deeper
        ]

  pub sort-perm : (xs : List A) → Perm (sort xs) xs
  unfolding sort
  sort-perm [] = Perm.refl _
  sort-perm (x ∷ xs) = Perm.trans (insert_sorted-perm x (sort xs)) (Perm.cons x (sort-perm xs))

  module _ (total : (x y : A) → before x y ≡ false → before y x ≡ true) where
    insert_sorted-IsSorted : (x : A) (xs : List A) → IsSorted xs → IsSorted (insert_sorted x xs)
    unfolding insert_sorted
    insert_sorted-IsSorted x [] h = tt
    insert_sorted-IsSorted x (y ∷ []) h = ground (arith, total x y)
    insert_sorted-IsSorted x (y ∷ z ∷ zs) h =
        ground (arith, total x y, insert_sorted-IsSorted x (z ∷ zs) h.1)

    pub sort-IsSorted : (xs : List A) → IsSorted (sort xs)
    unfolding sort
    sort-IsSorted [] = tt
    sort-IsSorted (x ∷ xs) = insert_sorted-IsSorted x (sort xs) (sort-IsSorted xs)

module _ {A : Type 0} (before : A → A → Bool) (P : A → Type 0) where
  All-insert_sorted : (x : A) (xs : List A) → P x → All P xs → All P (insert_sorted before x xs)
  unfolding insert_sorted
  All-insert_sorted x [] px h = (px, tt)
  All-insert_sorted x (y ∷ ys) px h = ground (arith, All-insert_sorted x ys px h.1)

  pub All-sort : (xs : List A) → All P xs → All P (sort before xs)
  unfolding sort
  All-sort [] h = tt
  All-sort (x ∷ xs) h = All-insert_sorted x (sort before xs) h.0 (All-sort xs h.1)
