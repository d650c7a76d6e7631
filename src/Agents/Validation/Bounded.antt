-- ===== src/Agents/Validation/Bounded.antt =====
-- `BoundedSchemaCorrection.resolve` of src/research_platform/agents/validation.py: the calls that
-- it makes of an agent.
use secure_mcp_multi_agent_r.Base.{
  ℕ, zero, suc, ◌+◌, ◌≡◌, ◌≤◌, ◌<◌, refl, sym, ap, arith, true, leb, List, [], ◌∷◌, ◌++◌, length,
  length-append, String, Option, none, some, Result, ok, err,
}
use secure_mcp_multi_agent_r.Agents.Validation.{
  Reading, Rejection, Exchange, agent_raised, schema_correction_exhausted, no_attempt_allowed,
  correction_of, attempt, Resolved, after_attempt, after_call, resolve_loop, resolve,
}

module _ {C : Type 0} (r : Reading C) where
  -- Calls that were all rejected: each was given what the one before failed for, the first of them
  -- `given`; `next` is what the following call will be given.
  abbrev pub AreRejected :
      (given : Option String)
      → List Exchange
      → (failures : List String) → (next : Option String) → Type 0
  AreRejected given [] [] next = given ≡ next
  AreRejected given [] (f ∷ fs) next = ⊥
  AreRejected given (x ∷ xs) [] next = ⊥
  AreRejected given ((correction, raw) ∷ xs) (f ∷ fs) next =
      (correction ≡ given)
      × ((rejection : Rejection) × (attempt r raw ≡ err rejection) × (correction_of rejection ≡ f))
      × AreRejected (some f) xs fs next

  length-AreRejected :
      (given : Option String) (calls : List Exchange) (failures : List String)
      (next : Option String)
      → AreRejected given calls failures next
      → length calls ≡ length failures
  length-AreRejected given [] [] next h = refl
  length-AreRejected given [] (f ∷ fs) next h = absurd h
  length-AreRejected given (x ∷ xs) [] next h = absurd h
  length-AreRejected given ((c, raw) ∷ xs) (f ∷ fs) next (_, _, h) =
      ap suc (length-AreRejected (some f) xs fs next h)

  AreRejected-snoc :
      (given : Option String) (calls : List Exchange) (failures : List String)
      (next : Option String) (raw : String) (rejection : Rejection)
      → AreRejected given calls failures next
      → attempt r raw ≡ err rejection
      → AreRejected given
          (calls ++ (next, raw) ∷ [])
          (failures ++ correction_of rejection ∷ [])
          (some (correction_of rejection))
  AreRejected-snoc given [] [] next raw rejection h e = (sym h, (rejection, e, refl), refl)
  AreRejected-snoc given [] (f ∷ fs) next raw rejection h e = absurd h
  AreRejected-snoc given (x ∷ xs) [] next raw rejection h e = absurd h
  AreRejected-snoc given ((c, old) ∷ xs) (f ∷ fs) next raw rejection (same, why, h) e =
      (same, why, AreRejected-snoc (some f) xs fs next raw rejection h e)

  module _ {E : Type 0} (produce : List Exchange → Option String → Result E String)
      (max_attempts : ℕ) where
    -- A contract came from the last call, and every call before it was rejected; without one, all
    -- the attempts were used and rejected, or the agent itself failed before that.
    abbrev pub IsBounded : Resolved r produce → Type 0
    IsBounded (ok contract, failures, calls) =
        (rejected : List Exchange) × (correction : Option String) × (raw : String) × (calls
          ≡ rejected ++ (correction, raw) ∷ [])
        × AreRejected none rejected failures correction
        × (attempt r raw ≡ ok contract)
        × (length calls ≤ max_attempts)
    IsBounded (err (schema_correction_exhausted attempts named), failures, calls) =
        (next : Option String) × AreRejected none calls failures next
        × (attempts ≡ max_attempts)
        × (named ≡ failures)
        × (length calls ≡ max_attempts)
    IsBounded (err (agent_raised e), failures, calls) =
        (next : Option String) × AreRejected none calls failures next
        × (produce calls next ≡ err e)
        × (length calls < max_attempts)
    IsBounded (err no_attempt_allowed, failures, calls) = ⊥

    module _ (left : ℕ) (correction : Option String) (failures : List String)
        (calls : List Exchange) (next : List Exchange → String → Resolved r produce)
        (h : AreRejected none calls failures correction)
        (n : length calls + suc left ≡ max_attempts)
        (goes_on : (raw : String) (rejection : Rejection)
          → attempt r raw ≡ err rejection
          → IsBounded (next (calls ++ (correction, raw) ∷ []) (correction_of rejection))) where
      after_attempt-IsBounded :
          (raw : String) (read : Result Rejection C)
          → attempt r raw ≡ read
          → IsBounded (
              after_attempt r produce failures
                (calls ++ (correction, raw) ∷ [])
                (next (calls ++ (correction, raw) ∷ []))
                read)
      unfolding after_attempt
      after_attempt-IsBounded raw (ok contract) e = (
        calls,
        correction,
        raw,
        refl,
        h,
        e,
        omega (arith, n, length-append calls ((correction, raw) ∷ [])),
      )
      after_attempt-IsBounded raw (err rejection) e = goes_on raw rejection e

      after_call-IsBounded :
          (answer : Result E String)
          → produce calls correction ≡ answer
          → IsBounded (after_call r produce failures calls correction next answer)
      unfolding after_call
      after_call-IsBounded (err x) e = (correction, h, e, omega (arith, n))
      after_call-IsBounded (ok raw) e = after_attempt-IsBounded raw (attempt r raw) refl

    resolve_loop-IsBounded :
        (left : ℕ) (correction : Option String) (failures : List String) (calls : List Exchange)
        → AreRejected none calls failures correction
        → length calls + left ≡ max_attempts
        → IsBounded (resolve_loop r produce max_attempts left correction failures calls)
    unfolding resolve_loop
    resolve_loop-IsBounded zero correction failures calls h n =
        (correction, h, refl, refl, omega (arith, n))
    resolve_loop-IsBounded (suc left) correction failures calls h n =
        after_call-IsBounded left correction failures calls
          (λ made text.
            resolve_loop r produce max_attempts left (some text) (failures ++ text ∷ []) made)
          h n
          (λ raw rejection e.
            resolve_loop-IsBounded left (some (correction_of rejection))
              (failures ++ correction_of rejection ∷ []) (calls ++ (correction, raw) ∷ [])
              (AreRejected-snoc none calls failures correction raw rejection h e)
              (omega (arith, n, length-append calls ((correction, raw) ∷ []))))
          (produce calls correction) refl

-- With at least one attempt allowed, the agent is called at most that often, and each call after
-- the first is given what the one before was rejected for. A contract that is returned was read
-- from the last response; the exhausted error says that all the attempts were made and rejected;
-- any other error is the agent's own.
pub resolve-IsBounded :
    {C E : Type 0} (r : Reading C) (produce : List Exchange → Option String → Result E String)
    (max_attempts : ℕ)
    → 1 ≤ max_attempts
    → IsBounded r produce max_attempts (resolve r produce max_attempts)
unfolding resolve
resolve-IsBounded r produce max_attempts h =
    let allowed : leb 1 max_attempts ≡ true = ground arith in
    rw (allowed, resolve)
      (resolve_loop-IsBounded r produce max_attempts max_attempts none [] [] refl (omega arith))
