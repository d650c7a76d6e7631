-- ===== src/Mcp/Breaker.antt =====
-- The circuit breaker of src/research_platform/mcp/breaker.py. Each reading of the clock is an
-- argument; `now - opened_at >= cooldown` is written `opened_at + cooldown <= now`.
pub mod Soundness
pub mod Opening
use secure_mcp_multi_agent_r.Base.{
  ℕ, ◌+◌, Bool, true, false, leb, List, [], ◌∷◌, String, text_eq, Dict, get, put, Option, none,
  some, Result, ok, err, if◌then◌else◌,
}

pub data CircuitState : Type 0 where
  closed open_ half_open : CircuitState

pub record Circuit : Type 0 where
  pub failures : ℕ
  pub state : CircuitState
  pub opened_at : Option ℕ

abbrev pub fresh : Circuit
fresh = record { failures = 0; state = closed; opened_at = none }

-- `CircuitOpen`, an `assert` that fails, the store of a shared breaker, and `__init__`'s refusal.
pub data BreakerError : Type 0 where
  circuit_open : (server : String) (until : ℕ) → BreakerError
  assertion_failed breaker_store_unavailable threshold_too_low : BreakerError

pub record Config : Type 0 where
  pub failure_threshold : ℕ
  pub cooldown : ℕ

abbrev pub Circuits : Type 0
Circuits = Dict String Circuit

unfoldable pub check_config : Config → Result BreakerError Config
check_config cfg = if leb 1 cfg.failure_threshold then ok cfg else err threshold_too_low

-- What `_refresh` makes of one circuit.
unfoldable pub refreshed : Config → Circuit → ℕ → Result BreakerError Circuit
refreshed cfg c now = elim c.state [
  | open_ ↦ elim c.opened_at [
    | none ↦ err assertion_failed
    | some opened ↦
        ok (if leb (opened + cfg.cooldown) now then record c { state = half_open } else c)
  ]
  | _ ↦ ok c
]

-- `_refresh` changes the circuit in place, so a circuit that is stored changes in the store. A
-- server that was never called is not remembered.
unfoldable pub refresh : Config → Circuits → String → ℕ → Result BreakerError Circuit × Circuits
unfolding refreshed
refresh cfg cs server now = elim (get cs server) [
  | none ↦ (ok fresh, cs)
  | some c ↦ elim (refreshed cfg c now) [ ok c' ↦ (ok c', put cs server c') | err e ↦ (err e, cs) ]
]

unfoldable pub state_of :
    Config → Circuits → String → ℕ → Result BreakerError CircuitState × Circuits
unfolding refresh
state_of cfg cs server now =
    let (found, cs') = refresh cfg cs server now in
    (elim found [ ok c ↦ ok c.state | err e ↦ err e ], cs')

-- The loop of `states`, over the servers listed when it began.
states_from :
    Config
    → List String
    → ℕ
    → Circuits
    → Result BreakerError (List (String × CircuitState)) × Circuits
unfolding state_of
states_from cfg [] now cs = (ok [], cs)
states_from cfg (server ∷ rest) now cs =
    let (first, cs') = state_of cfg cs server now in
    let (others, cs'') = states_from cfg rest now cs' in
    elim first [
      | err e ↦ (err e, cs')
      | ok s ↦ (elim others [ ok l ↦ ok ((server, s) ∷ l) | err e ↦ err e ], cs'')
    ]

keys : Circuits → List String
keys [] = []
keys ((k, c) ∷ cs) = k ∷ keys cs

unfoldable pub states :
    Config → Circuits → ℕ → Result BreakerError (List (String × CircuitState)) × Circuits
unfolding states_from keys
states cfg cs now = states_from cfg (keys cs) now cs

unfoldable pub ensure_closed :
    Config → Circuits → String → ℕ → Result BreakerError (Unit {0}) × Circuits
unfolding refresh
ensure_closed cfg cs server now =
    let (found, cs') = refresh cfg cs server now in
    (
      elim found [
        | err e ↦ err e
        | ok c ↦ elim c.state [
          | open_ ↦ elim c.opened_at [
            | none ↦ err assertion_failed
            | some opened ↦ err (circuit_open server (opened + cfg.cooldown))
          ]
          | _ ↦ ok tt
        ]
      ],
      cs',
    )

unfoldable pub record_success : Circuits → String → Circuits
record_success cs server = put cs server fresh

-- The circuit that `record_failure` stores; `later` is the second reading of the clock.
unfoldable pub failed : Config → Circuit → ℕ → Circuit
failed cfg c later = elim c.state [
  | half_open ↦ record { failures = cfg.failure_threshold; state = open_; opened_at = some later }
  | _ ↦
      let counted = record c { failures = c.failures + 1 } in
      if leb cfg.failure_threshold (c.failures + 1)
      then record counted { state = open_; opened_at = some later }
      else counted
]

unfoldable pub record_failure :
    Config → Circuits → String → (now later : ℕ) → Result BreakerError (Unit {0}) × Circuits
unfolding refresh failed
record_failure cfg cs server now later =
    let (found, cs') = refresh cfg cs server now in
    elim found [ err e ↦ (err e, cs') | ok c ↦ (ok tt, put cs' server (failed cfg c later)) ]
