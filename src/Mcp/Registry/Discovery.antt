-- ===== src/Mcp/Registry/Discovery.antt =====
-- About `discover` and `resolve_for` of src/research_platform/mcp/registry.py: capabilities that a
-- caller may see.
use mathlib.Core.List.{Mem, not-mem-nil, mem-cons, mem-cons_self, mem-cons_of_mem}
use mathlib.Core.List.Perm
use mathlib.Core.Logic.Or
use secure_mcp_multi_agent_r.Base.{
  ◌≡◌, refl, ap, subst, All, ◌↔◌, true, List, [], ◌∷◌, arith, String, text_pair_eq,
  text_pair_beq_iff, ◌==◌, filter, Bool-cases, inl, inr, sort-perm, mem-filter_of, of_mem-filter,
  get, put, get-put, values, Option, none, some, ok, >>=-eq-ok,
}
use text.Mathlib.TextEquality.{IsScalar-prop}
use secure_mcp_multi_agent_r.Identity.{Principal}
use secure_mcp_multi_agent_r.Mcp.Registry.{
  Capability, Registry, is_visible_to, by_qualified_name, register, register_all, resolve_for,
  discover,
}

-- Every capability stands under its own server and name, and under no key twice.
abbrev pub Registered : Registry → Type 0
Registered [] = Unit
Registered ((k, c) ∷ r) = (k ≡ (c.server, c.name)) × (get r k ≡ none) × Registered r

Registered-put :
    (r : Registry) (c : Capability)
    → Registered r
    → get r (c.server, c.name) ≡ none
    → Registered (put r (c.server, c.name) c)
unfolding put get
Registered-put [] c h free = (refl, refl, tt)
Registered-put ((k, d) ∷ r) c h free = elim (Bool-cases (k == (c.server, c.name))) [
  | inl e ↦ ground arith
  | inr e ↦
      let still = rw e at free in
      rw e (
        h.0,
        ground (
          arith,
          get-put r (c.server, c.name) k c,
          text_pair_beq_iff (c.server, c.name) k,
          text_pair_beq_iff k (c.server, c.name),
          h.1,
        ),
        Registered-put r c h.2 still,
      )
]

pub register-Registered :
    (r : Registry) (c : Capability) {r' : Registry}
    → Registered r
    → register r c ≡ ok r'
    → Registered r'
unfolding register
register-Registered r c {r'} h done =
    let free : get r (c.server, c.name) ≡ none = ground arith in
    let same : put r (c.server, c.name) c ≡ r' = ground arith in
    subst Registered same (Registered-put r c h free)

pub register_all-Registered :
    (r : Registry) (cs : List Capability) {r' : Registry}
    → Registered r
    → register_all r cs ≡ ok r'
    → Registered r'
unfolding register_all
register_all-Registered r [] {r'} h done = subst Registered (cc) h
register_all-Registered r (c ∷ cs) h done =
    let (next, first, rest) = >>=-eq-ok (register r c) (λ next. register_all next cs) done in
    register_all-Registered next cs (register-Registered r c h first) rest

get-register :
    (r : Registry) (c d : Capability) {r' : Registry} (k : String × String)
    → get r k ≡ some d
    → register r c ≡ ok r'
    → get r' k ≡ some d
unfolding register
get-register r c d {r'} k h done =
    let free : get r (c.server, c.name) ≡ none = ground arith in
    let same : put r (c.server, c.name) c ≡ r' = ground arith in
    subst (λ (t : Registry). get t k ≡ some d) same
      (ground (
        arith,
        get-put r (c.server, c.name) k c,
        text_pair_beq_iff (c.server, c.name) k,
        ap (λ (j : String × String). get r j) {x = (c.server, c.name)} {y = k},
      ))

get-registered :
    (r : Registry) (c : Capability) {r' : Registry}
    → register r c ≡ ok r'
    → get r' (c.server, c.name) ≡ some c
unfolding register
get-registered r c {r'} done =
    let key : String × String = (c.server, c.name) in
    let same : put r key c ≡ r' = ground arith in
    subst (λ (t : Registry). get t key ≡ some c) same
      (ground (arith, get-put r key key c, text_pair_beq_iff key key))

get-register_all :
    (r : Registry) (cs : List Capability) {r' : Registry} (k : String × String) (d : Capability)
    → get r k ≡ some d
    → register_all r cs ≡ ok r'
    → get r' k ≡ some d
unfolding register_all
get-register_all r [] k d h done = ground arith
get-register_all r (c ∷ cs) k d h done =
    let (next, first, rest) = >>=-eq-ok (register r c) (λ next. register_all next cs) done in
    get-register_all next cs k d (get-register r c d k h first) rest

-- When a list of capabilities is registered without an error, each of them is found afterwards
-- under its server and name: none has replaced another.
pub register_all-found :
    (r : Registry) (cs : List Capability) {r' : Registry}
    → register_all r cs ≡ ok r'
    → All (λ (c : Capability). get r' (c.server, c.name) ≡ some c) cs
unfolding register_all
register_all-found r [] done = tt
register_all-found r (c ∷ cs) done =
    let (next, first, rest) = >>=-eq-ok (register r c) (λ next. register_all next cs) done in
    (
      get-register_all next cs (c.server, c.name) c (get-registered r c first) rest,
      register_all-found next cs rest,
    )

Capability-set : IsSet (Option Capability)
Capability-set = hlevel IsScalar-prop

get_of_mem :
    (r : Registry) (c : Capability)
    → Registered r
    → Mem c (values r)
    → get r (c.server, c.name) ≡ some c
unfolding get
get_of_mem [] c h m = absurd (not-mem-nil m)
get_of_mem ((k, d) ∷ r) c h m =
    Or.elim (Capability-set _ _) (mem-cons.0 m)
      (λ e. ground (arith, text_pair_beq_iff k (c.server, c.name), h.0))
      (λ older.
        ground (arith, text_pair_beq_iff k (c.server, c.name), get_of_mem r c h.2 older, h.1))

mem_of_get :
    (r : Registry) (k : String × String) (c : Capability) → get r k ≡ some c → Mem c (values r)
unfolding get
mem_of_get [] k c h = cc
mem_of_get ((j, d) ∷ r) k c h = elim (Bool-cases (j == k)) [
  | inl e ↦ let same : c ≡ d = ground arith in rw same mem-cons_self
  | inr e ↦ mem-cons_of_mem d (mem_of_get r k c (rw e at h))
]

-- Discovery reveals exactly the registered capabilities that the caller may see.
pub mem-discover :
    (r : Registry) (p : Principal) (c : Capability)
    → Mem c (discover r p) ↔ (Mem c (values r) × (is_visible_to c p ≡ true))
unfolding discover
mem-discover r p c =
    let visible = filter (λ d. is_visible_to d p) (values r) in
    let same = Perm.mem_iff {a = c} (sort-perm by_qualified_name visible) in
    (
      λ m. of_mem-filter (λ d. is_visible_to d p) c (values r) (same.0 m),
      λ (m, see). same.1 (mem-filter_of (λ d. is_visible_to d p) c (values r) m see),
    )

-- Resolving a name succeeds exactly for what discovery would have revealed: in a catalogue in which
-- each capability stands under its own name, a capability is discovered if and only if asking for
-- its server and name returns it.
pub resolve_for-iff-discover :
    (r : Registry) (p : Principal) (c : Capability)
    → Registered r
    → (resolve_for r p c.server c.name ≡ ok c) ↔ Mem c (discover r p)
unfolding resolve_for
resolve_for-iff-discover r p c h = (
  λ resolved.
      let there : get r (c.server, c.name) ≡ some c = ground arith in
      (mem-discover r p c).1 (mem_of_get r (c.server, c.name) c there, ground arith),
  λ m. let (stored, see) = (mem-discover r p c).0 m in ground (arith, get_of_mem r c h stored),
)
