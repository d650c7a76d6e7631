-- ===== src/Domain/Status.antt =====
-- `JobStatus` and `ALLOWED_TRANSITIONS` of src/research_platform/domain/models.py.
pub mod Stages
use secure_mcp_multi_agent_r.Base.{
  ℕ, ◌≡◌, ◌↔◌, Bool, true, false, List, [], ◌∷◌, arith, nat_beq, Eq, elem,
}

pub data JobStatus : Type 0 where
  created planning researching analyzing review_required : JobStatus
  reporting completed failed partial : JobStatus

-- The position in the enumeration, by which two members are compared.
abbrev pub status_index : JobStatus → ℕ
status_index created = 0
status_index planning = 1
status_index researching = 2
status_index analyzing = 3
status_index review_required = 4
status_index reporting = 5
status_index completed = 6
status_index failed = 7
status_index partial = 8

abbrev pub status_beq : JobStatus → JobStatus → Bool
status_beq a b = nat_beq (status_index a) (status_index b)

pub status_beq_iff : (a b : JobStatus) → (status_beq a b ≡ true) ↔ (a ≡ b)
status_beq_iff a b = ground arith

instance abbrev pub status_eq : Eq JobStatus
status_eq = record { beq = status_beq; beq_iff = status_beq_iff }

unfoldable pub allowed_transitions : JobStatus → List JobStatus
allowed_transitions created = planning ∷ failed ∷ []
allowed_transitions planning = researching ∷ failed ∷ []
allowed_transitions researching = analyzing ∷ partial ∷ failed ∷ []
allowed_transitions analyzing = review_required ∷ reporting ∷ partial ∷ failed ∷ []
allowed_transitions review_required = researching ∷ reporting ∷ failed ∷ []
allowed_transitions reporting = completed ∷ partial ∷ failed ∷ []
allowed_transitions completed = []
allowed_transitions failed = []
allowed_transitions partial = []

-- `target in ALLOWED_TRANSITIONS[status]`
unfoldable pub may_move : JobStatus → JobStatus → Bool
unfolding allowed_transitions
may_move status target = elem target (allowed_transitions status)

-- No transition leads out of a terminal status.
unfoldable pub is_terminal : JobStatus → Bool
is_terminal completed = true
is_terminal failed = true
is_terminal partial = true
is_terminal _ = false

pub may_move-terminal : (s t : JobStatus) → is_terminal s ≡ true → may_move s t ≡ false
unfolding may_move is_terminal
may_move-terminal s t h = ground arith

-- Every working status may fail, so an error always has a status to end in.
pub may_move-failed : (s : JobStatus) → is_terminal s ≡ false → may_move s failed ≡ true
unfolding may_move is_terminal
may_move-failed s h = ground arith
