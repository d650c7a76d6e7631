-- ===== src/Domain/Tasks/Order.antt =====
-- About `resolve_execution_order` of src/research_platform/domain/tasks.py: the order it returns.
use secure_mcp_multi_agent_r.Base.{
  ℕ, zero, suc, ◌≡◌, refl, true, ◌||◌, List, [], ◌∷◌, ◌++◌, arith, elem, filter, all, sort, length,
  subst, nat_eq, insert_sorted, All, All-sort, ok,
}
use mathlib.Core.List.{map-append}
use secure_mcp_multi_agent_r.Domain.Tasks.{
  ResearchTask, ids, is_ready, older_first, rounds, resolve_execution_order,
}
use secure_mcp_multi_agent_r.Domain.Tasks.Rounds.{Within, elem-append, waiting, rounds-suc}

-- Each task's dependencies are among `seen` and the tasks in front of it.
abbrev pub RunsAfter : List ℕ → List ResearchTask → Type 0
RunsAfter seen [] = Unit
RunsAfter seen (t ∷ ts) = (is_ready seen t ≡ true) × RunsAfter (t.id ∷ seen) ts

all-elem_mono :
    (a b ds : List ℕ) → Within a b → all (λ d. elem d a) ds ≡ true → all (λ d. elem d b) ds ≡ true
all-elem_mono a b [] w h = refl
all-elem_mono a b (d ∷ ds) w h = ground (arith, w d, all-elem_mono a b ds w)

pub is_ready_mono :
    (a b : List ℕ) (t : ResearchTask) → Within a b → is_ready a t ≡ true → is_ready b t ≡ true
unfolding is_ready
is_ready_mono a b t w h = all-elem_mono a b t.dependencies w h

All-ready-RunsAfter :
    (known seen : List ℕ) (ys : List ResearchTask)
    → Within known seen
    → All (λ t. is_ready known t ≡ true) ys
    → RunsAfter seen ys
All-ready-RunsAfter known seen [] w h = tt
All-ready-RunsAfter known seen (y ∷ ys) w h = (
  is_ready_mono known seen y w h.0,
  All-ready-RunsAfter known (y.id ∷ seen) ys (λ i m. ground (arith, w i m)) h.1,
)

RunsAfter-append :
    (known seen : List ℕ) (xs ys : List ResearchTask)
    → ((i : ℕ) → elem i known ≡ true → (elem i seen || elem i (ids xs)) ≡ true)
    → RunsAfter seen xs
    → All (λ t. is_ready known t ≡ true) ys
    → RunsAfter seen (xs ++ ys)
RunsAfter-append known seen [] ys w h ready =
    All-ready-RunsAfter known seen ys (λ i m. ground (arith, w i m)) ready
RunsAfter-append known seen (x ∷ xs) ys w h ready =
    (h.0, RunsAfter-append known (x.id ∷ seen) xs ys (λ i m. ground (arith, w i m)) h.1 ready)

All-ready :
    (placed : List ℕ) (tasks : List ResearchTask)
    → All (λ t. is_ready placed t ≡ true) (filter (is_ready placed) tasks)
All-ready placed [] = tt
All-ready placed (t ∷ ts) = ground (arith, All-ready placed ts)

elem-insert_sorted :
    (i : ℕ) (t : ResearchTask) (ts : List ResearchTask)
    → elem i (ids (insert_sorted older_first t ts)) ≡ elem i (ids (t ∷ ts))
unfolding insert_sorted
elem-insert_sorted i t [] = refl
elem-insert_sorted i t (u ∷ us) = ground (arith, elem-insert_sorted i t us)

elem-sort : (i : ℕ) (ts : List ResearchTask) → elem i (ids (sort older_first ts)) ≡ elem i (ids ts)
unfolding sort
elem-sort i [] = refl
elem-sort i (t ∷ ts) = ground (arith, elem-insert_sorted i t (sort older_first ts), elem-sort i ts)

elem-ids-append :
    (i : ℕ) (xs ys : List ResearchTask)
    → elem i (ids (xs ++ ys)) ≡ (elem i (ids xs) || elem i (ids ys))
elem-ids-append i xs ys = rw map-append (elem-append i (ids xs) (ids ys))

module _ (ordered : List ResearchTask) (placed : List ℕ) (tasks : List ResearchTask) where
  abbrev round_ready : List ResearchTask
  round_ready = filter (is_ready placed) tasks

  placed-round :
      Within placed (ids ordered)
      → Within (placed ++ ids round_ready) (ids (ordered ++ sort older_first round_ready))
  placed-round w i m = ground (
    arith,
    elem-append i placed (ids round_ready),
    elem-ids-append i ordered (sort older_first round_ready),
    elem-sort i round_ready,
    w i,
  )

rounds-RunsAfter :
    (fuel : ℕ) (ordered : List ResearchTask) (placed : List ℕ) (tasks : List ResearchTask)
    {plan : List ResearchTask}
    → Within placed (ids ordered)
    → RunsAfter [] ordered
    → rounds fuel ordered placed tasks ≡ ok plan
    → RunsAfter [] plan
unfolding rounds
rounds-RunsAfter fuel ordered placed [] {plan} w h e = subst (RunsAfter []) (cc) h
rounds-RunsAfter zero ordered placed (t ∷ ts) w h e = cc
rounds-RunsAfter (suc fuel) ordered placed (t ∷ ts) w h e =
    let ready = filter (is_ready placed) (t ∷ ts) in
    rounds-RunsAfter fuel (ordered ++ sort older_first ready) (placed ++ ids ready)
      (waiting (placed ++ ids ready) (t ∷ ts)) (placed-round ordered placed (t ∷ ts) w)
      (RunsAfter-append placed [] ordered (sort older_first ready) w h
        (All-sort older_first _ ready (All-ready placed (t ∷ ts))))
      (rounds-suc fuel ordered placed t ts e)

-- In the order returned, every task stands behind all that it depends on.
pub resolve_execution_order-RunsAfter :
    (tasks : List ResearchTask) {plan : List ResearchTask}
    → resolve_execution_order tasks ≡ ok plan
    → RunsAfter [] plan
unfolding resolve_execution_order
resolve_execution_order-RunsAfter tasks h =
    rounds-RunsAfter (length tasks) [] [] tasks (λ i m. m) tt (ground arith)
