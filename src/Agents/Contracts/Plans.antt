-- ===== src/Agents/Contracts/Plans.antt =====
-- The check of a plan's dependencies in src/research_platform/agents/contracts.py.
use secure_mcp_multi_agent_r.Base.{
  ℕ, zero, suc, ◌+◌, ◌≡◌, ◌≢◌, ◌≤◌, refl, arith, Bool, true, false, not, ◌||◌, ◌==◌, nat_eq, List,
  [], ◌∷◌, ◌++◌, filter, any, all, elem, is_empty, length, some, ok, err, Bool-cases, Result-cases,
  subst, sym, nat_beq_iff, inl, inr,
}
use secure_mcp_multi_agent_r.Agents.Contracts.{
  PlannedTask, ResearchPlan, out_of_fuel, find_bad_dependency, positioned, is_placeable, positions,
  reject_cycles, check_plan,
}

-- The filters of `ready` and of the rest share a list out.
length-filter_split :
    (p : ℕ × List ℕ → Bool) (ts : List (ℕ × List ℕ))
    → length (filter p ts) + length (filter (λ t. not (p t)) ts) ≡ length ts
length-filter_split p [] = refl
length-filter_split p (t ∷ ts) = ground (arith, length-filter_split p ts)

is_empty-length : (ts : List (ℕ × List ℕ)) → is_empty ts ≡ false → 1 ≤ length ts
is_empty-length [] h = ground arith
is_empty-length (t ∷ ts) h = omega arith

reject_cycles-fuel :
    (fuel : ℕ) (placed : List ℕ) (ts : List (ℕ × List ℕ))
    → length ts ≤ fuel
    → reject_cycles fuel placed ts ≢ err out_of_fuel
unfolding reject_cycles
reject_cycles-fuel fuel placed [] h = λ e. ground arith
reject_cycles-fuel zero placed (t ∷ ts) h = absurd (ground arith)
reject_cycles-fuel (suc fuel) placed (t ∷ ts) h =
    elim (Bool-cases (is_empty (filter (is_placeable placed) (t ∷ ts)))) [
      | inl e ↦ rw e (λ e2. ground arith)
      | inr e ↦
          let some_ready = is_empty-length (filter (is_placeable placed) (t ∷ ts)) e in
          rw e (
            reject_cycles-fuel fuel (placed ++ positions (filter (is_placeable placed) (t ∷ ts)))
              (filter (λ u. not (is_placeable placed u)) (t ∷ ts))
              (omega (arith, h, some_ready, length-filter_split (is_placeable placed) (t ∷ ts))))
    ]

-- A set of positions, each of which depends on a member.
abbrev pub is_closed : (ℕ → Bool) → List (ℕ × List ℕ) → Bool
is_closed members ts = all (λ t. not (members t.0) || any members t.1) ts

abbrev pub are_outside : (ℕ → Bool) → List (ℕ × List ℕ) → Bool
are_outside members ts = all (λ t. not (members t.0)) ts

module _ (members : ℕ → Bool) where
  outside-elem :
      (placed : List ℕ) (d : ℕ)
      → all (λ i. not (members i)) placed ≡ true
      → elem d placed ≡ true
      → members d ≡ false
  outside-elem [] d h e = ground arith
  outside-elem (i ∷ is) d h e = elim (Bool-cases (d == i)) [
    | inl same ↦
        let first : members i ≡ false = ground arith in
        subst (λ j. members j ≡ false) (sym ((nat_beq_iff d i).0 same)) first
    | inr apart ↦ outside-elem is d (ground arith) (ground arith)
  ]

  outside-any :
      (placed ds : List ℕ)
      → all (λ i. not (members i)) placed ≡ true
      → all (λ d. elem d placed) ds ≡ true
      → any members ds ≡ false
  outside-any placed [] h e = refl
  outside-any placed (d ∷ ds) h e = ground (arith, outside-elem placed d h, outside-any placed ds h)

  -- What is ready in a round is outside.
  outside-ready :
      (placed : List ℕ) (ts : List (ℕ × List ℕ))
      → all (λ i. not (members i)) placed ≡ true
      → is_closed members ts ≡ true
      → (are_outside members (filter (is_placeable placed) ts) ≡ true)
        × (is_closed members (filter (λ u. not (is_placeable placed u)) ts) ≡ true)
  outside-ready placed [] h c = (refl, refl)
  outside-ready placed (t ∷ ts) h c =
      ground (arith, outside-ready placed ts h, outside-any placed t.1 h)

  outside-positions :
      (placed : List ℕ) (ts : List (ℕ × List ℕ))
      → all (λ i. not (members i)) placed ≡ true
      → are_outside members ts ≡ true
      → all (λ i. not (members i)) (placed ++ positions ts) ≡ true
  outside-positions [] [] h o = refl
  outside-positions [] (t ∷ ts) h o = ground (arith, outside-positions [] ts refl)
  outside-positions (i ∷ is) ts h o = ground (arith, outside-positions is ts)

  outside-split :
      (p : ℕ × List ℕ → Bool) (ts : List (ℕ × List ℕ))
      → are_outside members (filter p ts) ≡ true
      → are_outside members (filter (λ t. not (p t)) ts) ≡ true
      → are_outside members ts ≡ true
  outside-split p [] h o = refl
  outside-split p (t ∷ ts) h o = ground (arith, outside-split p ts)

  reject_cycles-outside :
      (fuel : ℕ) (placed : List ℕ) (ts : List (ℕ × List ℕ))
      → all (λ i. not (members i)) placed ≡ true
      → is_closed members ts ≡ true
      → reject_cycles fuel placed ts ≡ ok tt
      → are_outside members ts ≡ true
  unfolding reject_cycles
  reject_cycles-outside fuel placed [] h c e = refl
  reject_cycles-outside zero placed (t ∷ ts) h c e = ground arith
  reject_cycles-outside (suc fuel) placed (t ∷ ts) h c e =
      let ready = filter (is_placeable placed) (t ∷ ts) in
      let left = filter (λ u. not (is_placeable placed u)) (t ∷ ts) in
      let (out, closed) = outside-ready placed (t ∷ ts) h c in
      let rest : reject_cycles fuel (placed ++ positions ready) left ≡ ok tt = ground (arith, e) in
      outside-split (is_placeable placed) (t ∷ ts) out (
        reject_cycles-outside fuel (placed ++ positions ready) left
          (outside-positions placed ready h out) closed rest)

-- An accepted plan has no cycle: when each task of a set of tasks depends on a task of the set, the
-- set is empty.
pub check_plan-acyclic :
    (plan accepted : ResearchPlan) (members : ℕ → Bool)
    → check_plan plan ≡ ok accepted
    → is_closed members (positioned 0 plan.tasks) ≡ true
    → are_outside members (positioned 0 plan.tasks) ≡ true
unfolding check_plan
check_plan-acyclic plan accepted members e closed =
    let tasks = positioned 0 plan.tasks in
    elim (Result-cases (reject_cycles (length plan.tasks) [] tasks)) [
      | inl (_, placed) ↦
          reject_cycles-outside members (length plan.tasks) [] tasks refl closed placed
      | inr (x, refused) ↦ ground (arith, e, refused)
    ]

length-positioned : (n : ℕ) (ts : List PlannedTask) → length (positioned n ts) ≡ length ts
unfolding positioned
length-positioned n [] = refl
length-positioned n (t ∷ ts) = omega (arith, length-positioned (suc n) ts)

find_bad_dependency-fuel :
    (count n : ℕ) (ts : List PlannedTask) → find_bad_dependency count n ts ≢ some out_of_fuel
unfolding find_bad_dependency
find_bad_dependency-fuel count n [] = λ e. ground arith
find_bad_dependency-fuel count n (t ∷ ts) =
    λ e. ground (arith, find_bad_dependency-fuel count (suc n) ts)

-- The check of a plan always ends with an answer: its loop has a round for each task.
pub check_plan-ends : (plan : ResearchPlan) → check_plan plan ≢ err out_of_fuel
unfolding check_plan
check_plan-ends plan = λ e. ground (
  arith,
  find_bad_dependency-fuel (length plan.tasks) 0 plan.tasks,
  reject_cycles-fuel (length plan.tasks) [] (positioned 0 plan.tasks)
      (omega (arith, length-positioned 0 plan.tasks)),
)
