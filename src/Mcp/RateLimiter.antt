-- ===== src/Mcp/RateLimiter.antt =====
-- `SlidingWindowRateLimiter` of src/research_platform/mcp/servers/web_boundary.py. Each reading of
-- the clock is an argument; `hit <= now - window` is written `hit + window <= now`.
pub mod Window
use secure_mcp_multi_agent_r.Base.{
  ℕ, ◌+◌, ◌-◌, Bool, leb, List, [], ◌∷◌, ◌++◌, length, String, text_eq, Dict, put, get_or, Result,
  ok, err, if◌then◌else◌,
}

pub record Limit : Type 0 where
  pub limit : ℕ
  pub window : ℕ

pub data RateLimitError : Type 0 where
  rate_limit_exceeded : (key : String) (limit window : ℕ) → RateLimitError
  limit_too_low : RateLimitError

-- `__post_init__`
unfoldable pub check_limit : Limit → Result RateLimitError Limit
check_limit l = if leb 1 l.limit then ok l else err limit_too_low

-- The requests granted and still remembered, for each key, the oldest first.
abbrev pub Hits : Type 0
Hits = Dict String (List ℕ)

-- The `while` loop of `_prune`.
unfoldable pub drop_old : (window now : ℕ) → List ℕ → List ℕ
drop_old window now [] = []
drop_old window now (hit ∷ hits) =
    let rest = drop_old window now hits in if leb (hit + window) now then rest else hit ∷ hits

unfoldable pub prune : Limit → Hits → String → (now : ℕ) → List ℕ × Hits
unfolding drop_old
prune l hits key now =
    let kept = drop_old l.window now (get_or hits key []) in (kept, put hits key kept)

unfoldable pub remaining : Limit → Hits → String → (now : ℕ) → ℕ × Hits
unfolding prune
remaining l hits key now =
    let (kept, hits') = prune l hits key now in (l.limit - length kept, hits')

-- `later` is the second reading of the clock, which is the time of the request granted.
unfoldable pub acquire : Limit → Hits → String → (now later : ℕ) → Result RateLimitError ℕ × Hits
unfolding prune
acquire l hits key now later =
    let (kept, hits') = prune l hits key now in
    if leb l.limit (length kept)
    then (err (rate_limit_exceeded key l.limit l.window), hits')
    else let grown = kept ++ later ∷ [] in (ok (l.limit - length grown), put hits' key grown)
