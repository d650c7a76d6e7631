-- ===== src/Domain/Access.antt =====
-- `AccessClass`, `clearance_covers` and `most_restrictive` of
-- src/research_platform/domain/models.py.
use secure_mcp_multi_agent_r.Base.{
  ℕ, ◌≡◌, ◌↔◌, Bool, true, false, ◌&&◌, List, [], ◌∷◌, arith, nat_beq, ltb, leb, Eq, all,
  if◌then◌else◌,
}

pub data AccessClass : Type 0 where
  public internal restricted : AccessClass

-- `ACCESS_CLASS_RANK`
abbrev pub access_rank : AccessClass → ℕ
access_rank public = 0
access_rank internal = 1
access_rank restricted = 2

abbrev pub access_beq : AccessClass → AccessClass → Bool
access_beq a b = nat_beq (access_rank a) (access_rank b)

pub access_beq_iff : (a b : AccessClass) → (access_beq a b ≡ true) ↔ (a ≡ b)
access_beq_iff a b = ground arith

instance abbrev pub access_eq : Eq AccessClass
access_eq = record { beq = access_beq; beq_iff = access_beq_iff }

unfoldable pub clearance_covers : AccessClass → AccessClass → Bool
clearance_covers clearance required = leb (access_rank required) (access_rank clearance)

-- `max(classes, key=rank)` keeps the first of the highest.
highest_of : AccessClass → List AccessClass → AccessClass
highest_of best [] = best
highest_of best (c ∷ cs) =
    highest_of (if ltb (access_rank best) (access_rank c) then c else best) cs

unfoldable pub most_restrictive : List AccessClass → AccessClass
unfolding highest_of
most_restrictive [] = public
most_restrictive (c ∷ cs) = highest_of c cs

-- `access_class in PUBLISHABLE_ACCESS_CLASSES`
unfoldable pub is_publishable_class : AccessClass → Bool
is_publishable_class restricted = false
is_publishable_class _ = true

covers-highest_of :
    (clearance best : AccessClass) (cs : List AccessClass)
    → clearance_covers clearance (highest_of best cs)
      ≡ (clearance_covers clearance best && all (clearance_covers clearance) cs)
unfolding highest_of clearance_covers
covers-highest_of clearance best [] = ground arith
covers-highest_of clearance best (c ∷ cs) = ground (
  arith,
  covers-highest_of clearance (if ltb (access_rank best) (access_rank c) then c else best) cs,
)

-- A clearance covers the most restrictive of some classes exactly if it covers each of them.
pub covers-most_restrictive :
    (clearance : AccessClass) (cs : List AccessClass)
    → clearance_covers clearance (most_restrictive cs) ≡ all (clearance_covers clearance) cs
unfolding most_restrictive
covers-most_restrictive clearance [] = unfold clearance_covers in ground arith
covers-most_restrictive clearance (c ∷ cs) = covers-highest_of clearance c cs
