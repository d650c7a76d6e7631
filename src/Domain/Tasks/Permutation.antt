-- ===== src/Domain/Tasks/Permutation.antt =====
-- About `resolve_execution_order` of src/research_platform/domain/tasks.py: which tasks it returns.
use mathlib.Core.List.{Perm, perm_middle, append_assoc, append-nil}
use mathlib.Core.List.Perm
use secure_mcp_multi_agent_r.Base.{
  ℕ, zero, suc, ◌≡◌, refl, subst, Bool, true, false, not, ◌&&◌, List, [], ◌∷◌, ◌++◌, arith, nat_eq,
  nat_beq_iff, elem, filter, sort, sort-perm, length, All, ok, Bool-cases, inl, inr,
}
use secure_mcp_multi_agent_r.Domain.Tasks.{
  ResearchTask, ids, is_ready, older_first, rounds, resolve_execution_order,
}
use secure_mcp_multi_agent_r.Domain.Tasks.Rounds.{elem-append, waiting, rounds-suc}

-- No identifier stands twice.
abbrev pub distinct : List ℕ → Bool
distinct [] = true
distinct (x ∷ xs) = not (elem x xs) && distinct xs

All-map :
    {P Q : ResearchTask → Type 0} (xs : List ResearchTask)
    → ((x : ResearchTask) → elem x.id (ids xs) ≡ true → P x → Q x)
    → All P xs
    → All Q xs
All-map [] f h = tt
All-map (x ∷ xs) f h =
    (f x (ground (arith, nat_beq_iff x.id x.id)) h.0, All-map xs (λ y m. f y (ground arith)) h.1)

elem-filter :
    (i : ℕ) (p : ResearchTask → Bool) (xs : List ResearchTask)
    → elem i (ids xs) ≡ false
    → elem i (ids (filter p xs)) ≡ false
elem-filter i p [] h = refl
elem-filter i p (x ∷ xs) h = ground (arith, elem-filter i p xs)

distinct-filter :
    (p : ResearchTask → Bool) (xs : List ResearchTask)
    → distinct (ids xs) ≡ true
    → distinct (ids (filter p xs)) ≡ true
distinct-filter p [] h = refl
distinct-filter p (x ∷ xs) h = ground (arith, distinct-filter p xs, elem-filter x.id p xs)

-- Which of the tasks a filter keeps can be read off the identifiers.
filter-members :
    (p : ResearchTask → Bool) (xs : List ResearchTask)
    → distinct (ids xs) ≡ true
    → All (λ x. elem x.id (ids (filter p xs)) ≡ p x) xs
filter-members p [] h = tt
filter-members p (x ∷ xs) h = (
  ground (arith, elem-filter x.id p xs, nat_beq_iff x.id x.id),
  All-map xs (λ y m e. ground (arith, nat_beq_iff y.id x.id, elem-filter x.id p xs))
      (filter-members p xs (ground arith)),
)

split-perm :
    (p : ResearchTask → Bool) (after : List ℕ) (xs : List ResearchTask)
    → All (λ x. elem x.id after ≡ p x) xs
    → Perm (filter p xs ++ waiting after xs) xs
split-perm p after [] h = Perm.refl _
split-perm p after (x ∷ xs) h =
    let rest = Perm.cons x (split-perm p after xs h.1) in
    elim (Bool-cases (p x)) [
      | inl e ↦ rw (h.0, e) rest
      | inr e ↦ rw (h.0, e) (Perm.trans (perm_middle (filter p xs) (waiting after xs)) rest)
    ]

All-waiting :
    (after : List ℕ) (xs : List ResearchTask)
    → All (λ x. elem x.id after ≡ false) (waiting after xs)
All-waiting after [] = tt
All-waiting after (x ∷ xs) = ground (arith, All-waiting after xs)

-- After a round the placed identifiers are those of the ready tasks, among the tasks waiting.
round-members :
    (placed : List ℕ) (xs : List ResearchTask)
    → distinct (ids xs) ≡ true
    → All (λ x. elem x.id placed ≡ false) xs
    → All (λ x. elem x.id (placed ++ ids (filter (is_ready placed) xs)) ≡ is_ready placed x) xs
round-members placed xs d fresh = both xs fresh (filter-members (is_ready placed) xs d)
  where
    after : List ℕ
    after = ids (filter (is_ready placed) xs)

    both :
        (ys : List ResearchTask)
        → All (λ x. elem x.id placed ≡ false) ys
        → All (λ x. elem x.id after ≡ is_ready placed x) ys
        → All (λ x. elem x.id (placed ++ after) ≡ is_ready placed x) ys
    both [] f m = tt
    both (y ∷ ys) f m = (rw (elem-append, f.0) m.0, both ys f.1 m.1)

rounds-perm :
    (fuel : ℕ) (ordered : List ResearchTask) (placed : List ℕ) (tasks : List ResearchTask)
    {plan : List ResearchTask}
    → distinct (ids tasks) ≡ true
    → All (λ x. elem x.id placed ≡ false) tasks
    → rounds fuel ordered placed tasks ≡ ok plan
    → Perm plan (ordered ++ tasks)
unfolding rounds
rounds-perm fuel ordered placed [] {plan} d fresh e =
    rw append-nil (subst (λ l. Perm l ordered) (cc) (Perm.refl ordered))
rounds-perm zero ordered placed (t ∷ ts) d fresh e = cc
rounds-perm (suc fuel) ordered placed (t ∷ ts) d fresh e =
    let ready = filter (is_ready placed) (t ∷ ts) in
    let placed' = placed ++ ids ready in
    let later =
      rounds-perm fuel (ordered ++ sort older_first ready) placed' (waiting placed' (t ∷ ts))
        (distinct-filter (λ x. not (elem x.id placed')) (t ∷ ts) d) (All-waiting placed' (t ∷ ts))
        (rounds-suc fuel ordered placed t ts e) in
    Perm.trans later (
      rw append_assoc (
        Perm.append_left ordered (
          Perm.trans (Perm.append_right (waiting placed' (t ∷ ts)) (sort-perm older_first ready)) (
            split-perm (is_ready placed) placed' (t ∷ ts)
              (round-members placed (t ∷ ts) d fresh)))))

none_placed : (tasks : List ResearchTask) → All (λ x. elem x.id [] ≡ false) tasks
none_placed [] = tt
none_placed (t ∷ ts) = (refl, none_placed ts)

-- If no two tasks share an identifier, the order returned holds exactly the given tasks, each once
-- for each time it was given.
pub resolve_execution_order-perm :
    (tasks : List ResearchTask) {plan : List ResearchTask}
    → distinct (ids tasks) ≡ true
    → resolve_execution_order tasks ≡ ok plan
    → Perm plan tasks
unfolding resolve_execution_order
resolve_execution_order-perm tasks d h =
    rounds-perm (length tasks) [] [] tasks d (none_placed tasks) (ground arith)
