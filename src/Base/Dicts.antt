-- ===== src/Base/Dicts.antt =====
-- Python's `dict`: pairs in the order of first insertion. A write to a key that is there keeps its
-- place. Clients reason by `dict_laws`.
use mathlib.Core.Path.{◌≡◌, refl}
use mathlib.Core.Bool.{Bool, true, false}
use mathlib.Core.Option.{Option, none, some}
use mathlib.Core.List.{List, [], ◌∷◌, map}
use native.Mathlib.Omega.{arith}
use secure_mcp_multi_agent_r.Base.Tests.{Eq, ◌==◌, if◌then◌else◌}

abbrev pub Dict : Type 0 → Type 0 → Type 0
Dict K V = List (K × V)

module _ {K V : Type 0} ⦃e : Eq K⦄ where
  -- `d.get(k)`
  unfoldable pub get : Dict K V → K → Option V
  get [] k = none
  get ((j, v) ∷ d) k = if j == k then some v else get d k

  -- `d[k] = v`
  unfoldable pub put : Dict K V → K → V → Dict K V
  put [] k v = (k, v) ∷ []
  put ((j, w) ∷ d) k v = if j == k then (j, v) ∷ d else (j, w) ∷ put d k v

  -- `d.get(k, default)`
  unfoldable pub get_or : Dict K V → K → V → V
  get_or d k v = elim (get d k) [ none ↦ v | some w ↦ w ]

  -- `k in d`
  abbrev pub has_key : Dict K V → K → Bool
  has_key d k = elim (get d k) [ none ↦ false | some w ↦ true ]

  pub get-put :
      (d : Dict K V) (k j : K) (v : V) → get (put d k v) j ≡ (if k == j then some v else get d j)
  unfolding get put
  get-put [] k j v = refl
  get-put ((i, w) ∷ d) k j v =
      ground (arith, e.beq_iff i k, e.beq_iff i j, e.beq_iff k j, get-put d k j v)

  pub get_or-put :
      (d : Dict K V) (k j : K) (v w : V)
      → get_or (put d k v) j w ≡ (if k == j then v else get_or d j w)
  unfolding get_or
  get_or-put d k j v w = ground (arith, get-put d k j v)

pub get-empty : {K V : Type 0} ⦃e : Eq K⦄ (k : K) → get {V = V} [] k ≡ none
unfolding get
get-empty k = refl

-- `d.values()`
abbrev pub values : {K V : Type 0} → Dict K V → List V
values d = map (λ p. p.1) d

pub ruleset dict_laws = (get-empty, get-put, get_or-put)
