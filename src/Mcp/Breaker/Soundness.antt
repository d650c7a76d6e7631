-- ===== src/Mcp/Breaker/Soundness.antt =====
-- About `CircuitBreaker` of src/research_platform/mcp/breaker.py: the circuits it stores.
use secure_mcp_multi_agent_r.Base.{
  ℕ, ◌+◌, ◌≡◌, refl, ◌≢◌, ◌≤◌, ◌<◌, subst, leb, List, [], ◌∷◌, arith, String, text_eq, get, put,
  get-put, get-empty, Option, none, some, ok, err, Bool-cases, Option-cases, leb→le, ◌==◌, inl, inr,
}
use secure_mcp_multi_agent_r.Mcp.Breaker.{
  CircuitState, closed, open_, half_open, Circuit, fresh, circuit_open, assertion_failed, Config,
  Circuits, refreshed, refresh, state_of, ensure_closed, record_success, failed, record_failure,
}

-- A closed circuit has not reached the threshold; any other has, and knows when it opened.
abbrev pub IsSoundAt : Config → CircuitState → ℕ → Option ℕ → Type 0
IsSoundAt cfg closed failures opened_at = failures < cfg.failure_threshold
IsSoundAt cfg open_ failures (some t) = cfg.failure_threshold ≤ failures
IsSoundAt cfg open_ failures none = ⊥
IsSoundAt cfg half_open failures (some t) = cfg.failure_threshold ≤ failures
IsSoundAt cfg half_open failures none = ⊥

abbrev pub IsSound : Config → Circuit → Type 0
IsSound cfg c = IsSoundAt cfg c.state c.failures c.opened_at

pub record AllSound (cfg : Config) (cs : Circuits) : Type 0 where
  pub at_server : (server : String) (c : Circuit) → get cs server ≡ some c → IsSound cfg c

module _ (cfg : Config) where
  AllSound-put :
      (cs : Circuits) (server : String) (c : Circuit)
      → AllSound cfg cs
      → IsSound cfg c
      → AllSound cfg (put cs server c)
  AllSound-put cs server c h sound = record {
    at_server = λ other d there. elim (Bool-cases (server == other)) [
      | inl e ↦
          let same : c ≡ d = ground (arith, get-put cs server other c) in
          subst (IsSound cfg) same sound
      | inr e ↦ h.at_server other d (ground (arith, get-put cs server other c))
    ];
  }

  fresh-IsSound : 1 ≤ cfg.failure_threshold → IsSound cfg fresh
  fresh-IsSound h = omega arith

  refreshed-IsSound_parts :
      (f : ℕ) (s : CircuitState) (o : Option ℕ) (now : ℕ)
      → IsSoundAt cfg s f o
      → (c' : Circuit) × (refreshed cfg (record { failures = f; state = s; opened_at = o }) now
          ≡ ok c')
        × IsSound cfg c'
  unfolding refreshed
  refreshed-IsSound_parts f closed o now h =
      (record { failures = f; state = closed; opened_at = o }, refl, h)
  refreshed-IsSound_parts f half_open (some t) now h =
      (record { failures = f; state = half_open; opened_at = some t }, refl, h)
  refreshed-IsSound_parts f half_open none now h = elim h [ ]
  refreshed-IsSound_parts f open_ none now h = elim h [ ]
  refreshed-IsSound_parts f open_ (some t) now h = elim (Bool-cases (leb (t + cfg.cooldown) now)) [
    | inl e ↦ (record { failures = f; state = half_open; opened_at = some t }, rw e, h)
    | inr e ↦ (record { failures = f; state = open_; opened_at = some t }, rw e, h)
  ]

  -- Looking at a sound circuit succeeds, and leaves it sound.
  refreshed-IsSound :
      (c : Circuit) (now : ℕ)
      → IsSound cfg c
      → (c' : Circuit) × (refreshed cfg c now ≡ ok c') × IsSound cfg c'
  refreshed-IsSound c now h = refreshed-IsSound_parts c.failures c.state c.opened_at now h

  failed-IsSound_parts :
      (f : ℕ) (s : CircuitState) (o : Option ℕ) (later : ℕ)
      → IsSoundAt cfg s f o
      → IsSound cfg (failed cfg (record { failures = f; state = s; opened_at = o }) later)
  unfolding failed
  failed-IsSound_parts f half_open o later h = omega arith
  failed-IsSound_parts f closed o later h = elim (Bool-cases (leb cfg.failure_threshold (f + 1))) [
    | inl e ↦ rw e (omega (arith, leb→le _ _ e))
    | inr e ↦ rw e (ground arith)
  ]
  failed-IsSound_parts f open_ (some t) later h =
      elim (Bool-cases (leb cfg.failure_threshold (f + 1))) [
        | inl e ↦ rw e (omega (arith, leb→le _ _ e))
        | inr e ↦ ground arith
      ]
  failed-IsSound_parts f open_ none later h = elim h [ ]

  -- A look at the store: it finds a sound circuit and keeps the store sound.
  pub refresh-AllSound :
      (cs : Circuits) (server : String) (now : ℕ)
      → 1 ≤ cfg.failure_threshold
      → AllSound cfg cs
      → (c : Circuit) × ((refresh cfg cs server now).0 ≡ ok c)
        × IsSound cfg c
        × AllSound cfg (refresh cfg cs server now).1
  unfolding refresh
  refresh-AllSound cs server now pos h = elim (Option-cases (get cs server)) [
    | inl e ↦ (fresh, rw (e, refresh), fresh-IsSound pos, rw (e, refresh) h)
    | inr (c, e) ↦
        let (c', looked, sound) = refreshed-IsSound c now (h.at_server server c e) in
        (
          c',
          rw (e, refresh) (rw looked),
          sound,
          rw (e, refresh) (rw looked (AllSound-put cs server c' h sound)),
        )
  ]

-- One call on the breaker, with the readings of the clock that it makes.
pub data BreakerCall : Type 0 where
  look ensure : (server : String) (now : ℕ) → BreakerCall
  succeed : (server : String) → BreakerCall
  fail : (server : String) (now later : ℕ) → BreakerCall

unfoldable pub after_call : Config → Circuits → BreakerCall → Circuits
after_call cfg cs (look server now) = (state_of cfg cs server now).1
after_call cfg cs (ensure server now) = (ensure_closed cfg cs server now).1
after_call cfg cs (succeed server) = record_success cs server
after_call cfg cs (fail server now later) = (record_failure cfg cs server now later).1

unfoldable pub after_calls : Config → Circuits → List BreakerCall → Circuits
after_calls cfg cs [] = cs
after_calls cfg cs (call ∷ calls) = after_calls cfg (after_call cfg cs call) calls

module _ (cfg : Config) (pos : 1 ≤ cfg.failure_threshold) where
  record_failure-AllSound :
      (cs : Circuits) (server : String) (now later : ℕ)
      → AllSound cfg cs
      → ((record_failure cfg cs server now later).0 ≡ ok tt)
        × AllSound cfg (record_failure cfg cs server now later).1
  unfolding record_failure
  record_failure-AllSound cs server now later h =
      let (c, found, sound, kept) = refresh-AllSound cfg cs server now pos h in
      (
        rw (found, record_failure),
        rw (found, record_failure)
            (AllSound-put cfg _ server _ kept
              (failed-IsSound_parts cfg c.failures c.state c.opened_at later sound)),
      )

  pub after_call-AllSound :
      (cs : Circuits) (call : BreakerCall) → AllSound cfg cs → AllSound cfg (after_call cfg cs call)
  unfolding after_call state_of ensure_closed record_success
  after_call-AllSound cs (look server now) h = (refresh-AllSound cfg cs server now pos h).3
  after_call-AllSound cs (ensure server now) h = (refresh-AllSound cfg cs server now pos h).3
  after_call-AllSound cs (succeed server) h =
      AllSound-put cfg cs server fresh h (fresh-IsSound cfg pos)
  after_call-AllSound cs (fail server now later) h =
      (record_failure-AllSound cs server now later h).1

  after_calls-AllSound :
      (cs : Circuits) (calls : List BreakerCall)
      → AllSound cfg cs
      → AllSound cfg (after_calls cfg cs calls)
  unfolding after_calls
  after_calls-AllSound cs [] h = h
  after_calls-AllSound cs (call ∷ calls) h =
      after_calls-AllSound (after_call cfg cs call) calls (after_call-AllSound cs call h)

  sound_never_asserts :
      (c : Circuit) (server : String)
      → IsSound cfg c
      → (elim c.state [
        | open_ ↦ elim c.opened_at [
          | none ↦ err assertion_failed
          | some opened ↦ err (circuit_open server (opened + cfg.cooldown))
        ]
        | _ ↦ ok tt
      ])
        ≢ err assertion_failed
  sound_never_asserts c server h = parts c.state c.opened_at h
    where
      parts :
          (s : CircuitState) (o : Option ℕ)
          → IsSoundAt cfg s c.failures o
          → (elim s [
            | open_ ↦ elim o [
              | none ↦ err assertion_failed
              | some opened ↦ err (circuit_open server (opened + cfg.cooldown))
            ]
            | _ ↦ ok tt
          ])
            ≢ err assertion_failed
      parts closed o h e = cc
      parts half_open o h e = cc
      parts open_ none h e = elim h [ ]
      parts open_ (some t) h e = cc

  -- Whatever calls a new breaker has had, its threshold being at least 1, an `assert` of the module
  -- never fails: `ensure_closed` returns or reports an open circuit, and `record_failure` returns.
  pub breaker_never_asserts :
      (calls : List BreakerCall) (server : String) (now later : ℕ)
      → ((ensure_closed cfg (after_calls cfg [] calls) server now).0 ≢ err assertion_failed)
        × ((record_failure cfg (after_calls cfg [] calls) server now later).0 ≡ ok tt)
  unfolding ensure_closed
  breaker_never_asserts calls server now later =
      let none_stored : AllSound cfg [] = record { at_server = λ s c e. absurd (none_in s c e) } in
      let sound = after_calls-AllSound [] calls none_stored in
      let cs = after_calls cfg [] calls in
      let (c, found, good, kept) = refresh-AllSound cfg cs server now pos sound in
      (
        λ e. sound_never_asserts c server good (rw (found, ensure_closed) at e),
        (record_failure-AllSound cs server now later sound).0,
      )
    where
      none_in : (s : String) (c : Circuit) → get {V = Circuit} [] s ≡ some c → ⊥
      none_in s c e = cc (e, get-empty {V = Circuit} s)
