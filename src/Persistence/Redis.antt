-- ===== src/Persistence/Redis.antt =====
-- The Redis server behind src/research_platform/persistence/redis_state.py. The server is not part
-- of the repository, so its commands are a parameter, with what their documentation says of them.
-- That a key expires is left out: it happens a month, or a day, after the key was last written.
pub mod Budgets
use secure_mcp_multi_agent_r.Base.{
  ℕ, ◌+◌, ◌≡◌, ◌≤◌, ◌<◌, refl, arith, Bool, true, false, ◌&&◌, ◌==◌, text_eq, String, Option, none,
  some, Result, ok, err, if◌then◌else◌,
}

-- 2 ^ 53
abbrev pub exact_below : ℕ
exact_below = 9_007_199_254_740_992

-- The commands on hashes. A value is a text; `parse` is the reading of a number, in the unit of the
-- field: a count, millionths of a dollar or microseconds. `hincrby` writes `int_sum` of the old
-- text and its argument, which reads as the sum as long as that is below 2 ^ 53: above, Lua's
-- numbers are not exact, and from 2 ^ 63 on HINCRBY answers with an error. `hincrbyfloat` is
-- HINCRBYFLOAT, whose argument here is in the field's units: what it writes, `float_sum`, is left
-- open, since the server rounds a sum of decimal fractions in another way than Python does. A key
-- that expires after no seconds is deleted at once, so the law of EXPIRE is about one second or
-- more.
pub record Server : Type 1 where
  pub State : Type 0
  pub parse : String → ℕ
  pub hget : State → (key field : String) → Option String
  pub hincrby : State → (key field : String) → ℕ → State
  pub int_sum : Option String → ℕ → String
  pub float_sum : Option String → ℕ → String
  pub hincrbyfloat : State → (key field : String) → ℕ → State
  pub expire : State → (key : String) → (seconds : ℕ) → State
  pub hget-hincrby :
      (s : State) (key field : String) (n : ℕ) (other name : String)
      → hget (hincrby s key field n) other name ≡ (
          if (key == other) && (field == name)
          then some (int_sum (hget s key field) n)
          else hget s other name)
  pub parse-int_sum :
      (old : Option String) (n : ℕ)
      → (elim old [ none ↦ 0 | some v ↦ parse v ]) + n < exact_below
      → parse (int_sum old n) ≡ (elim old [ none ↦ 0 | some v ↦ parse v ]) + n
  pub hget-hincrbyfloat :
      (s : State) (key field : String) (n : ℕ) (other name : String)
      → hget (hincrbyfloat s key field n) other name ≡ (
          if (key == other) && (field == name)
          then some (float_sum (hget s key field) n)
          else hget s other name)
  pub hget-expire :
      (s : State) (key : String) (seconds : ℕ) (other name : String)
      → 1 ≤ seconds
      → hget (expire s key seconds) other name ≡ hget s other name

-- What becomes of a call: it is answered, it never reaches the server, or its answer is lost after
-- the server has done what it says.
pub data Delivery : Type 0 where
  answered unreached reply_lost : Delivery

module _ (r : Server) where
  -- `tonumber(redis.call('HGET', key, field) or '0')`
  abbrev pub number_at : r.State → (key field : String) → ℕ
  number_at s key field = elim (r.hget s key field) [ none ↦ 0 | some v ↦ r.parse v ]

  pub number_at-hincrby :
      (s : r.State) (key field : String) (n : ℕ) (other name : String)
      → number_at (r.hincrby s key field n) other name ≡ (
          if (key == other) && (field == name)
          then r.parse (r.int_sum (r.hget s key field) n)
          else number_at s other name)
  number_at-hincrby s key field n other name =
      ground (arith, r.hget-hincrby s key field n other name)

  pub number_at-hincrbyfloat :
      (s : r.State) (key field : String) (n : ℕ) (other name : String)
      → number_at (r.hincrbyfloat s key field n) other name ≡ (
          if (key == other) && (field == name)
          then r.parse (r.float_sum (r.hget s key field) n)
          else number_at s other name)
  number_at-hincrbyfloat s key field n other name =
      ground (arith, r.hget-hincrbyfloat s key field n other name)

  pub number_at-expire :
      (s : r.State) (key : String) (seconds : ℕ) (other name : String)
      → 1 ≤ seconds
      → number_at (r.expire s key seconds) other name ≡ number_at s other name
  number_at-expire s key seconds other name alive =
      rw (r.hget-expire s key seconds other name alive, number_at) refl

  -- A script runs as a whole or not at all, and `e` is what a caller that gets no answer raises.
  abbrev pub call :
      {E A : Type 0} → E → Delivery → (r.State → A × r.State) → r.State → Result E A × r.State
  call e answered script s = (ok (script s).0, (script s).1)
  call e unreached script s = (err e, s)
  call e reply_lost script s = (err e, (script s).1)
