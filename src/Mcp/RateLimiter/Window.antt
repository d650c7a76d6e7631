-- ===== src/Mcp/RateLimiter/Window.antt =====
-- About `SlidingWindowRateLimiter` of src/research_platform/mcp/servers/web_boundary.py: sequences
-- of requests.
use secure_mcp_multi_agent_r.Base.{
  ℕ, suc, ◌+◌, ◌≡◌, refl, ◌≤◌, true, false, ltb, leb, List, [], ◌∷◌, ◌++◌, length, arith, String,
  text_eq, eq_iff, ◌==◌, put, get_or, get_or-put, get-empty, is_ok, Bool-cases, inl, inr,
  if◌then◌else◌,
}
use secure_mcp_multi_agent_r.Mcp.RateLimiter.{Limit, Hits, drop_old, acquire}

-- How many of these times are within the window that ends at `at`.
unfoldable pub count_recent : (window at : ℕ) → List ℕ → ℕ
count_recent window at [] = 0
count_recent window at (t ∷ ts) =
    let n = count_recent window at ts in if ltb at (t + window) then suc n else n

count_recent-le : (w at : ℕ) (ts : List ℕ) → count_recent w at ts ≤ length ts
unfolding count_recent
count_recent-le w at [] = omega arith
count_recent-le w at (t ∷ ts) = ground (arith, count_recent-le w at ts)

-- What is dropped is outside every window that ends later.
count_recent-drop_old :
    (w now at : ℕ) (ts : List ℕ)
    → now ≤ at
    → count_recent w at (drop_old w now ts) ≡ count_recent w at ts
unfolding count_recent drop_old
count_recent-drop_old w now at [] h = refl
count_recent-drop_old w now at (t ∷ ts) h = ground (arith, count_recent-drop_old w now at ts h)

count_recent-append :
    (w at : ℕ) (ts : List ℕ) (t : ℕ) → count_recent w at (ts ++ t ∷ []) ≡ count_recent w at (t ∷ ts)
unfolding count_recent
count_recent-append w at [] t = refl
count_recent-append w at (s ∷ ts) t = ground (arith, count_recent-append w at ts t)

-- One call of `acquire`, with the two readings of the clock that it makes.
pub record Request : Type 0 where
  pub key : String
  pub now : ℕ
  pub later : ℕ

-- The clock never goes back.
abbrev pub IsMonotone : ℕ → List Request → Type 0
IsMonotone clock [] = Unit
IsMonotone clock (r ∷ rs) = (clock ≤ r.now) × (r.now ≤ r.later) × IsMonotone r.later rs

module _ (l : Limit) (key : String) where
  -- The times of the requests granted for the key, the newest first, after some calls for any keys.
  unfoldable pub granted_times : Hits → List ℕ → List Request → List ℕ
  granted_times hits log [] = log
  granted_times hits log (r ∷ rs) =
      let (answer, hits') = acquire l hits r.key r.now r.later in
      let log' = if r.key == key then (if is_ok answer then r.later ∷ log else log) else log in
      granted_times hits' log' rs

  -- When each of these requests was granted, it was within the limit, counting those granted in the
  -- window that ends with it.
  abbrev pub IsWithinLimit : List ℕ → Type 0
  IsWithinLimit [] = Unit
  IsWithinLimit (t ∷ ts) = (count_recent l.window t (t ∷ ts) ≤ l.limit) × IsWithinLimit ts

  -- The times remembered count as much as all the times granted, in windows that end from now on.
  abbrev Remembers : ℕ → Hits → List ℕ → Type 0
  Remembers clock hits log =
      (at : ℕ)
      → clock ≤ at
      → count_recent l.window at (get_or hits key []) ≡ count_recent l.window at log

  module _ (hits : Hits) (r : Request) where
    kept : List ℕ
    kept = drop_old l.window r.now (get_or hits r.key [])

    hits-acquire : get_or (acquire l hits r.key r.now r.later).1 key [] ≡ (
        if r.key == key
        then (if leb l.limit (length kept) then kept else kept ++ r.later ∷ [])
        else get_or hits key [])
    unfolding acquire kept
    hits-acquire = ground (
      arith,
      get_or-put hits r.key key kept [],
      get_or-put (put hits r.key kept) r.key key (kept ++ r.later ∷ []) [],
    )

    is_ok-acquire :
        is_ok (acquire l hits r.key r.now r.later).0
        ≡ (if leb l.limit (length kept) then false else true)
    unfolding acquire kept
    is_ok-acquire = ground arith

  -- The log after one call.
  abbrev logged : Hits → List ℕ → Request → List ℕ
  logged hits log r =
      let answer = (acquire l hits r.key r.now r.later).0 in
      if r.key == key then (if is_ok answer then r.later ∷ log else log) else log

  module _ (clock : ℕ) (hits : Hits) (log : List ℕ) (r : Request) (h : Remembers clock hits log)
      (late : clock ≤ r.now) (later : r.now ≤ r.later) where
    kept-recent :
        (at : ℕ)
        → r.key ≡ key
        → r.now ≤ at
        → count_recent l.window at (kept hits r) ≡ count_recent l.window at log
    unfolding kept
    kept-recent at same since =
        ground
          (arith, same, count_recent-drop_old l.window r.now at (get_or hits r.key []) since, h at)

    step-Remembers : Remembers r.later (acquire l hits r.key r.now r.later).1 (logged hits log r)
    step-Remembers at since = elim (Bool-cases (r.key == key)) [
      | inr other ↦ ground (arith, other, hits-acquire hits r, h at)
      | inl here ↦
          let same : r.key ≡ key = (eq_iff r.key key).0 here in
          unfold count_recent in
          ground (
            arith,
            here,
            hits-acquire hits r,
            is_ok-acquire hits r,
            kept-recent at same,
            count_recent-append l.window at (kept hits r) r.later,
          )
    ]

    step-IsWithinLimit : IsWithinLimit log → IsWithinLimit (logged hits log r)
    step-IsWithinLimit within = elim (Bool-cases (r.key == key)) [
      | inr other ↦ ground (arith, other, within)
      | inl here ↦
          let same : r.key ≡ key = (eq_iff r.key key).0 here in
          unfold count_recent in
          ground (
            arith,
            here,
            within,
            is_ok-acquire hits r,
            kept-recent r.later same,
            count_recent-le l.window r.later (kept hits r),
          )
    ]

  granted_times-IsWithinLimit_from :
      (clock : ℕ) (hits : Hits) (log : List ℕ) (rs : List Request)
      → Remembers clock hits log
      → IsMonotone clock rs
      → IsWithinLimit log
      → IsWithinLimit (granted_times hits log rs)
  unfolding granted_times
  granted_times-IsWithinLimit_from clock hits log [] h mono within = within
  granted_times-IsWithinLimit_from clock hits log (r ∷ rs) h mono within =
      granted_times-IsWithinLimit_from r.later (acquire l hits r.key r.now r.later).1
        (logged hits log r) rs (step-Remembers clock hits log r h mono.0 mono.1) mono.2
        (step-IsWithinLimit clock hits log r h mono.0 mono.1 within)

  -- Whatever requests for whatever keys reach a new limiter, the clock never going back: when a
  -- request for a key is granted, the requests granted for that key in the window that ends with
  -- it, itself included, are no more than the limit.
  pub granted_times-IsWithinLimit :
      (rs : List Request) → IsMonotone 0 rs → IsWithinLimit (granted_times [] [] rs)
  unfolding get_or
  granted_times-IsWithinLimit rs mono =
      granted_times-IsWithinLimit_from 0 [] [] rs
        (λ at since. ground (arith, get-empty {V = List ℕ} key)) mono tt
