-- ===== src/Mcp/Breaker/Opening.antt =====
-- About `CircuitBreaker` of src/research_platform/mcp/breaker.py: failures in a row.
use secure_mcp_multi_agent_r.Base.{
  ℕ, suc, ◌+◌, ◌≡◌, refl, ◌≤◌, ◌<◌, subst, sym, ◌∙◌, not, ◌&&◌, leb, List, [], ◌∷◌, arith, length,
  String, text_eq, get, get_or, get_or-put, none, some, Result, ok, err, Bool-cases, Option-cases,
  inl, inr, if◌then◌else◌,
}
use text.Mathlib.TextPositions.{eq_refl}
use native.Mathlib.Nat.{zero-add}
use secure_mcp_multi_agent_r.Mcp.Breaker.{
  closed, open_, half_open, Circuit, fresh, BreakerError, circuit_open, assertion_failed, Config,
  Circuits, refreshed, refresh, ensure_closed, failed, record_failure,
}

-- The circuit of a server; one that was never called has a fresh one.
abbrev current : Circuits → String → Circuit
current cs server = get_or cs server fresh

-- The state after `n` failures in a row, the last of them recorded at `last`.
data Shows (cfg : Config) (n last : ℕ) (c : Circuit) : Type 0 where
  not_yet :
      n < cfg.failure_threshold
      → c ≡ record { failures = n; state = closed; opened_at = none }
      → Shows cfg n last c
  opened :
      (f : ℕ)
      → cfg.failure_threshold ≤ n
      → cfg.failure_threshold ≤ f
      → c ≡ record { failures = f; state = open_; opened_at = some last }
      → Shows cfg n last c

module _ (cfg : Config) where
  -- One more failure, however long after the last one.
  Shows-failed :
      (n last now later : ℕ) (c : Circuit)
      → Shows cfg n last c
      → (c' : Circuit) × (refreshed cfg c now ≡ ok c')
        × Shows cfg (suc n) later (failed cfg c' later)
  unfolding refreshed failed
  Shows-failed n last now later c (not_yet few e) =
      elim (Bool-cases (leb cfg.failure_threshold (n + 1))) [
        | inl reached ↦ (c, rw e, opened (n + 1) (ground arith) (ground arith) (rw e (rw reached)))
        | inr short ↦ (c, rw e, not_yet (ground arith) (rw e (rw short (ground arith))))
      ]
  Shows-failed n last now later c (opened f many high e) =
      elim (Bool-cases (leb (last + cfg.cooldown) now)) [
        | inl rested ↦ (
          record { failures = f; state = half_open; opened_at = some last },
          rw e (rw rested),
          opened cfg.failure_threshold (omega arith) (omega arith) refl,
        )
        | inr resting ↦ (
          record { failures = f; state = open_; opened_at = some last },
          rw e (rw resting),
          opened (f + 1) (omega arith) (omega arith) (ground arith),
        )
      ]

  refresh-current :
      (cs : Circuits) (server : String) (now : ℕ) {c : Circuit}
      → refreshed cfg (current cs server) now ≡ ok c
      → (refresh cfg cs server now).0 ≡ ok c
  unfolding refresh get_or
  refresh-current cs server now h = elim (Option-cases (get cs server)) [
    | inl e ↦ rw (e, refresh) (ground arith)
    | inr (d, e) ↦ rw (e, refresh) (ground arith)
  ]

  record_failure-current :
      (cs : Circuits) (server : String) (now later : ℕ) {c : Circuit}
      → (refresh cfg cs server now).0 ≡ ok c
      → current (record_failure cfg cs server now later).1 server ≡ failed cfg c later
  unfolding record_failure
  record_failure-current cs server now later found =
      rw (found, record_failure) (rw get_or-put (simp eq_refl))

-- What `ensure_closed` makes of the circuit it finds.
abbrev verdict : Config → String → Circuit → Result BreakerError (Unit {0})
verdict cfg server c = elim c.state [
  | open_ ↦ elim c.opened_at [
    | none ↦ err assertion_failed
    | some since ↦ err (circuit_open server (since + cfg.cooldown))
  ]
  | _ ↦ ok tt
]

module _ (cfg : Config) (server : String) where
  ensure_closed-current :
      (cs : Circuits) (now : ℕ) {c : Circuit}
      → (refresh cfg cs server now).0 ≡ ok c
      → (ensure_closed cfg cs server now).0 ≡ verdict cfg server c
  unfolding ensure_closed
  ensure_closed-current cs now found = rw (found, ensure_closed)

  -- Failures in a row, each with its two readings of the clock.
  unfoldable pub fail_all : Circuits → List (ℕ × ℕ) → Circuits
  fail_all cs [] = cs
  fail_all cs ((now, later) ∷ fs) = fail_all (record_failure cfg cs server now later).1 fs

  abbrev pub last_from : ℕ → List (ℕ × ℕ) → ℕ
  last_from last [] = last
  last_from last ((now, later) ∷ fs) = last_from later fs

  Shows-fail_all :
      (fs : List (ℕ × ℕ)) (cs : Circuits) (n last : ℕ)
      → Shows cfg n last (current cs server)
      → Shows cfg (n + length fs) (last_from last fs) (current (fail_all cs fs) server)
  unfolding fail_all
  Shows-fail_all [] cs n last h = subst (λ k. Shows cfg k last (current cs server)) (omega arith) h
  Shows-fail_all ((now, later) ∷ fs) cs n last h =
      let (c, looked, next) = Shows-failed cfg n last now later (current cs server) h in
      let found = refresh-current cfg cs server now looked in
      let cs' = (record_failure cfg cs server now later).1 in
      subst (λ k. Shows cfg k (last_from later fs) (current (fail_all cs' fs) server)) (omega arith)
        (Shows-fail_all fs cs' (suc n) later (
          subst (Shows cfg (suc n) later)
            (sym (record_failure-current cfg cs server now later found)) next))

  Shows-verdict :
      (n last at : ℕ) (c : Circuit)
      → Shows cfg n last c
      → (c' : Circuit) × (refreshed cfg c at ≡ ok c')
        × (verdict cfg server c' ≡ (
            if leb cfg.failure_threshold n && not (leb (last + cfg.cooldown) at)
            then err (circuit_open server (last + cfg.cooldown))
            else ok tt))
  unfolding refreshed
  Shows-verdict n last at c (not_yet few e) = (c, rw e, rw e (ground arith))
  Shows-verdict n last at c (opened f many high e) =
      elim (Bool-cases (leb (last + cfg.cooldown) at)) [
        | inl rested ↦ (
          record { failures = f; state = half_open; opened_at = some last },
          rw e (rw rested),
          ground arith,
        )
        | inr resting ↦ (
          record { failures = f; state = open_; opened_at = some last },
          rw e (rw resting),
          ground arith,
        )
      ]

  -- Start with a server that was never called, or whose last call succeeded, and a threshold of at
  -- least 1. After any failures in a row, however far apart, a call is refused exactly if they are
  -- as many as the threshold and the cooldown since the last of them has not passed; the refusal
  -- says until when.
  pub ensure_closed-fail_all :
      1 ≤ cfg.failure_threshold
      → (cs : Circuits) (fs : List (ℕ × ℕ)) (at : ℕ) → get_or cs server fresh ≡ fresh
      → (ensure_closed cfg (fail_all cs fs) server at).0 ≡ (
          if leb cfg.failure_threshold (length fs) && not (leb (last_from 0 fs + cfg.cooldown) at)
          then err (circuit_open server (last_from 0 fs + cfg.cooldown))
          else ok tt)
  ensure_closed-fail_all pos cs fs at start =
      let shown = Shows-fail_all fs cs 0 0 (not_yet (omega arith) start) in
      let (c, looked, says) =
        Shows-verdict (0 + length fs) (last_from 0 fs) at (current (fail_all cs fs) server) shown in
      ensure_closed-current (fail_all cs fs) at
        (refresh-current cfg (fail_all cs fs) server at looked)
      ∙ says
      ∙ (rw zero-add)
