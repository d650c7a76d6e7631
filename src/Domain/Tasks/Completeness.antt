-- ===== src/Domain/Tasks/Completeness.antt =====
-- About `resolve_execution_order` of src/research_platform/domain/tasks.py: when it reports a
-- cycle.
use mathlib.Core.List.{Mem, Perm, not-mem-nil, mem-cons_self, mem-cons_of_mem, mem-cons}
use mathlib.Core.Logic.Or
use mathlib.Core.Bool.{Bool-set}
use mathlib.Core.List.Perm
use secure_mcp_multi_agent_r.Base.{
  ℕ, zero, suc, ◌≡◌, refl, sym, subst, ◌≢◌, some, ◌⊎◌, inl, inr, Bool, true, false, not, List, [],
  ◌∷◌, ◌++◌, arith, nat_eq, nat_beq_iff, elem, filter, is_empty, sort, length, err, Bool-cases,
  mem-filter_of, of_mem-filter,
}
use secure_mcp_multi_agent_r.Domain.Tasks.{
  ResearchTask, dependency_cycle, ids, is_ready, find_dangling, older_first, rounds,
  resolve_execution_order,
}
use secure_mcp_multi_agent_r.Domain.Tasks.Rounds.{Within, elem-append, waiting}
use secure_mcp_multi_agent_r.Domain.Tasks.Order.{RunsAfter, is_ready_mono}

empty_filter :
    (p : ResearchTask → Bool) (t : ResearchTask) (ts : List ResearchTask)
    → Mem t ts
    → p t ≡ true
    → is_empty (filter p ts) ≡ true
    → ⊥
empty_filter p t ts m h stuck = none_in (filter p ts) (mem-filter_of p t ts m h) stuck
  where
    none_in : (l : List ResearchTask) → Mem t l → is_empty l ≡ true → ⊥
    none_in [] found e = not-mem-nil found
    none_in (x ∷ l) found e = cc

-- In a valid order, either all is placed or some task that is not placed is ready.
next_in_order :
    (seen placed : List ℕ) (plan : List ResearchTask)
    → Within seen placed
    → RunsAfter seen plan
    → ((t : ResearchTask) → Mem t plan → elem t.id placed ≡ true)
      ⊎ ((t : ResearchTask) × Mem t plan × (elem t.id placed ≡ false) × (is_ready placed t ≡ true))
next_in_order seen placed [] w h = inl (λ t m. absurd (not-mem-nil m))
next_in_order seen placed (t ∷ ts) w h = elim (Bool-cases (elem t.id placed)) [
  | inr free ↦ inr (t, mem-cons_self, free, is_ready_mono seen placed t w h.0)
  | inl done ↦
      elim (next_in_order (t.id ∷ seen) placed ts (λ i m. ground (arith, w i, nat_beq_iff i t.id))
        h.1) [
          | inl all_placed ↦ inl (λ u m.
              Or.elim (Bool-set _ _) (mem-cons.0 m)
                (λ e. subst (λ (v : ResearchTask). elem v.id placed ≡ true) (sym e) done)
                (λ older. all_placed u older))
          | inr (u, m, free, ready) ↦ inr (u, mem-cons_of_mem t m, free, ready)
        ]
]

module _ (plan : List ResearchTask) (valid : RunsAfter [] plan) where
  -- The tasks waiting are those of the plan that are not placed.
  record Waits (placed : List ℕ) (remaining : List ResearchTask) : Type 0 where
    pub here : (t : ResearchTask) → Mem t plan → elem t.id placed ≡ false → Mem t remaining
    pub only : (t : ResearchTask) → Mem t remaining → Mem t plan × (elem t.id placed ≡ false)

  not_stuck :
      (placed : List ℕ) (t : ResearchTask) (ts : List ResearchTask)
      → Waits placed (t ∷ ts)
      → is_empty (filter (is_ready placed) (t ∷ ts)) ≡ true
      → ⊥
  not_stuck placed t ts w stuck = elim (next_in_order [] placed plan (λ i m. cc) valid) [
    | inl all_placed ↦
        let (planned, free) = w.only t mem-cons_self in let placed_too = all_placed t planned in cc
    | inr (u, m, free, ready) ↦
        empty_filter (is_ready placed) u (t ∷ ts) (w.here u m free) ready stuck
  ]

  Waits-round :
      (placed more : List ℕ) (remaining : List ResearchTask)
      → Waits placed remaining
      → Waits (placed ++ more) (waiting (placed ++ more) remaining)
  Waits-round placed more remaining w = record {
    here = λ u m free.
        mem-filter_of (λ task. not (elem task.id (placed ++ more))) u remaining
          (w.here u m (ground (arith, elem-append u.id placed more))) (rw free);
    only = λ u m.
        let (old, free) =
          of_mem-filter (λ task. not (elem task.id (placed ++ more))) u remaining m in
        ((w.only u old).0, ground arith);
  }

  rounds_no_cycle :
      (fuel : ℕ) (ordered : List ResearchTask) (placed : List ℕ) (remaining : List ResearchTask)
      → Waits placed remaining
      → rounds fuel ordered placed remaining ≢ err dependency_cycle
  unfolding rounds
  rounds_no_cycle fuel ordered placed [] w e = cc
  rounds_no_cycle zero ordered placed (t ∷ ts) w e = cc
  rounds_no_cycle (suc fuel) ordered placed (t ∷ ts) w e =
      let ready = filter (is_ready placed) (t ∷ ts) in
      ground (
        arith,
        not_stuck placed t ts w,
        rounds_no_cycle fuel (ordered ++ sort older_first ready) (placed ++ ids ready)
            (waiting (placed ++ ids ready) (t ∷ ts)) (Waits-round placed (ids ready) (t ∷ ts) w),
      )

find_dangling-ne-cycle :
    (known : List ℕ) (tasks : List ResearchTask) → find_dangling known tasks ≢ some dependency_cycle
unfolding find_dangling
find_dangling-ne-cycle known [] e = cc
find_dangling-ne-cycle known (t ∷ ts) e = ground (arith, find_dangling-ne-cycle known ts)

-- A cycle is reported only where there is one: if the tasks can be put in any order in which each
-- stands behind its dependencies, no cycle is reported.
pub no_cycle_of_order :
    (tasks plan : List ResearchTask)
    → Perm plan tasks
    → RunsAfter [] plan
    → resolve_execution_order tasks ≢ err dependency_cycle
unfolding resolve_execution_order
no_cycle_of_order tasks plan same valid =
    let start : Waits plan valid [] tasks = record {
      here = λ t m free. (Perm.mem_iff same).0 m;
      only = λ t m. ((Perm.mem_iff same).1 m, refl);
    } in
    ground (
      arith,
      find_dangling-ne-cycle (ids tasks) tasks,
      rounds_no_cycle plan valid (length tasks) [] [] tasks start,
    )
