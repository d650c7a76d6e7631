-- ===== src/Domain/Tasks/Rounds.antt =====
-- About the loop of `resolve_execution_order` in src/research_platform/domain/tasks.py: its rounds
-- and their fuel.
use secure_mcp_multi_agent_r.Base.{
  ℕ, zero, suc, ◌+◌, ◌≡◌, ◌≢◌, refl, ◌≤◌, ◌<◌, true, false, not, ◌||◌, List, [], ◌∷◌, ◌++◌, arith,
  elem, filter, is_empty, length, sort, some, ok, err, nat_beq_iff, nat_eq,
}
use secure_mcp_multi_agent_r.Domain.Tasks.{
  ResearchTask, out_of_fuel, ids, is_ready, find_dangling, older_first, rounds,
  resolve_execution_order,
}

pub elem-append : (i : ℕ) (xs ys : List ℕ) → elem i (xs ++ ys) ≡ (elem i xs || elem i ys)
elem-append i [] ys = refl
elem-append i (x ∷ xs) ys = ground (arith, elem-append i xs ys)

-- Every identifier of `xs` is one of `ys`.
abbrev pub Within : List ℕ → List ℕ → Type 0
Within xs ys = (i : ℕ) → elem i xs ≡ true → elem i ys ≡ true

pub Within-append_right : (xs ys : List ℕ) → Within ys (xs ++ ys)
Within-append_right xs ys i h = ground (arith, elem-append i xs ys)

pub Within-append_left : (xs ys : List ℕ) → Within xs (xs ++ ys)
Within-append_left xs ys i h = ground (arith, elem-append i xs ys)

-- What a round leaves over.
abbrev pub waiting : List ℕ → List ResearchTask → List ResearchTask
waiting placed tasks = filter (λ task. not (elem task.id placed)) tasks

module _ (placed : List ℕ) where
  tail_member :
      (t : ResearchTask) (ts : List ResearchTask)
      → Within (ids (filter (is_ready placed) ts)) (ids (filter (is_ready placed) (t ∷ ts)))
  tail_member t ts i h = ground arith

  head_member :
      (t : ResearchTask) (ts : List ResearchTask)
      → is_ready placed t ≡ true
      → elem t.id (ids (filter (is_ready placed) (t ∷ ts))) ≡ true
  head_member t ts h = ground (arith, nat_beq_iff t.id t.id)

module _ (placed : List ℕ) (after : List ℕ) where
  -- A task that is ready has its identifier among the placed ones, so it waits no longer.
  length-waiting :
      (tasks : List ResearchTask)
      → Within (ids (filter (is_ready placed) tasks)) after
      → length (waiting after tasks) + length (filter (is_ready placed) tasks) ≤ length tasks
  length-waiting [] inside = omega arith
  length-waiting (t ∷ ts) inside = ground (
    arith,
    length-waiting ts (λ i h. inside i (tail_member placed t ts i h)),
    inside t.id,
    head_member placed t ts,
  )

length-pos : (tasks : List ResearchTask) → is_empty tasks ≡ false → 0 < length tasks
length-pos [] h = cc
length-pos (t ∷ ts) h = omega arith

-- A round that finds a ready task leaves fewer tasks waiting.
length-round :
    (placed : List ℕ) (tasks : List ResearchTask)
    → is_empty (filter (is_ready placed) tasks) ≡ false
    → length (waiting (placed ++ ids (filter (is_ready placed) tasks)) tasks) < length tasks
length-round placed tasks h =
    let ready = filter (is_ready placed) tasks in
    omega (
      arith,
      length-waiting placed (placed ++ ids ready) tasks (Within-append_right placed (ids ready)),
      length-pos ready h,
    )

-- A round that succeeded found a ready task and left the rest to the next round.
pub rounds-suc :
    (fuel : ℕ) (ordered : List ResearchTask) (placed : List ℕ) (t : ResearchTask)
    (ts : List ResearchTask) {plan : List ResearchTask}
    → rounds (suc fuel) ordered placed (t ∷ ts) ≡ ok plan
    → rounds fuel
        (ordered ++ sort older_first (filter (is_ready placed) (t ∷ ts)))
        (placed ++ ids (filter (is_ready placed) (t ∷ ts)))
        (waiting (placed ++ ids (filter (is_ready placed) (t ∷ ts))) (t ∷ ts))
      ≡ ok plan
unfolding rounds
rounds-suc fuel ordered placed t ts h = ground arith

rounds-terminates :
    (fuel : ℕ) (ordered : List ResearchTask) (placed : List ℕ) (tasks : List ResearchTask)
    → length tasks ≤ fuel
    → rounds fuel ordered placed tasks ≢ err out_of_fuel
unfolding rounds
rounds-terminates fuel ordered placed [] h e = cc
rounds-terminates zero ordered placed (t ∷ ts) h e = absurd (omega arith)
rounds-terminates (suc fuel) ordered placed (t ∷ ts) h e =
    let ready = filter (is_ready placed) (t ∷ ts) in
    ground (
      arith,
      length-round placed (t ∷ ts),
      rounds-terminates fuel (ordered ++ sort older_first ready) (placed ++ ids ready)
          (waiting (placed ++ ids ready) (t ∷ ts)),
    )

find_dangling-ne-out_of_fuel :
    (known : List ℕ) (tasks : List ResearchTask) → find_dangling known tasks ≢ some out_of_fuel
unfolding find_dangling
find_dangling-ne-out_of_fuel known [] e = cc
find_dangling-ne-out_of_fuel known (t ∷ ts) e =
    ground (arith, find_dangling-ne-out_of_fuel known ts)

-- The loop ends: with as much fuel as there are tasks it returns an order or raises an error of
-- the source, for every list of tasks.
pub resolve_execution_order-terminates :
    (tasks : List ResearchTask) → resolve_execution_order tasks ≢ err out_of_fuel
unfolding resolve_execution_order
resolve_execution_order-terminates tasks = ground (
  arith,
  find_dangling-ne-out_of_fuel (ids tasks) tasks,
  rounds-terminates (length tasks) [] [] tasks,
)
