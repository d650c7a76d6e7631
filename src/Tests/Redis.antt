-- ===== src/Tests/Redis.antt =====
-- The theorems on the shared limits, over a server that is a dictionary and counts in strokes.
use secure_mcp_multi_agent_r.Base.{
  ℕ, zero, suc, ◌+◌, ◌≤◌, ◌≡◌, refl, ap, arith, ◌==◌, nat_eq, text_eq, text_pair_eq, List, [], ◌∷◌,
  String, char_count, Dict, get, put, get_or, get-put, none, some, if◌then◌else◌, nat_beq_iff,
}
use secure_mcp_multi_agent_r.Mcp.Budgets.{
  Ledger, usage, pos, reserve_call, record_agent_call, with_agent_call, has_negative,
}
use secure_mcp_multi_agent_r.Persistence.Redis.{Server}
use secure_mcp_multi_agent_r.Persistence.Redis.Budgets.{usage_from}
use secure_mcp_multi_agent_r.Persistence.Redis.Budgets.Requests.{
  LedgerRequest, reading, reserving, recording, shared_replies, memory_replies, memory_step,
  StaysExact, Agrees,
}
use secure_mcp_multi_agent_r.Persistence.Redis.Budgets.Refinement.{shared_replies-refines}
use secure_mcp_multi_agent_r.Tests.Data.{small_budget}

-- A number as so many strokes.
strokes : ℕ → String
strokes zero = ""
strokes (suc n) = String.◌∷◌ "|" (strokes n)

char_count-strokes : (n : ℕ) → char_count (strokes n) ≡ n
unfolding char_count strokes
char_count-strokes zero = refl
char_count-strokes (suc n) = omega (arith, char_count-strokes n)

abbrev Field : Type 0
Field = String × String

-- Every field but those of one key.
without : Dict Field String → String → Dict Field String
without [] wanted = []
without (((k, f), v) ∷ d) wanted =
    let rest = without d wanted in if k == wanted then rest else ((k, f), v) ∷ rest

get-expired :
    (d : Dict Field String) (key : String) (seconds : ℕ) (other name : String)
    → 1 ≤ seconds
    → get (if seconds == 0 then without d key else d) (other, name) ≡ get d (other, name)
get-expired d key seconds other name alive = ground (arith, nat_beq_iff seconds 0)

abbrev dictionary : Server
dictionary = record {
  State = Dict Field String;
  parse = char_count;
  hget = λ d k field. get d (k, field);
  hincrby = λ d k field n.
      put d (k, field)
        (strokes ((elim (get d (k, field)) [ none ↦ 0 | some v ↦ char_count v ]) + n));
  int_sum = λ old n. strokes ((elim old [ none ↦ 0 | some v ↦ char_count v ]) + n);
  float_sum = λ old n. strokes ((elim old [ none ↦ 0 | some v ↦ char_count v ]) + n);
  hincrbyfloat = λ d k field n.
      put d (k, field)
        (strokes ((elim (get d (k, field)) [ none ↦ 0 | some v ↦ char_count v ]) + n));
  expire = λ d k seconds. if seconds == 0 then without d k else d;
  hget-hincrby = λ d k field n other name.
      get-put d (k, field) (other, name)
        (strokes ((elim (get d (k, field)) [ none ↦ 0 | some v ↦ char_count v ]) + n));
  parse-int_sum =
      λ old n small. char_count-strokes ((elim old [ none ↦ 0 | some v ↦ char_count v ]) + n);
  hget-hincrbyfloat = λ d k field n other name.
      get-put d (k, field) (other, name)
        (strokes ((elim (get d (k, field)) [ none ↦ 0 | some v ↦ char_count v ]) + n));
  hget-expire = get-expired;
}

abbrev no_fields : Dict Field String
no_fields = []

abbrev two_workers : List LedgerRequest
two_workers =
    reserving 1 small_budget
    ∷ reserving 1 small_budget
    ∷ reserving 2 small_budget
    ∷ reserving 1 small_budget
    ∷ recording 1 (record {
      prompt_tokens = pos 7;
      completion_tokens = pos 2;
      cost_usd = pos 5;
      active_seconds = pos 1;
      corrections = pos 0;
    })
    ∷ reading 1
    ∷ []

strokes_injective : (i j : ℕ) → strokes i ≡ strokes j → i ≡ j
strokes_injective i j e =
    ground (arith, char_count-strokes i, char_count-strokes j, ap char_count e)

abbrev new_ledger : Ledger
new_ledger = []

nothing-Agrees : Agrees dictionary "research" strokes no_fields new_ledger
unfolding usage_from usage get get_or
nothing-Agrees job_id = refl

two_workers-StaysExact : StaysExact new_ledger two_workers
unfolding StaysExact memory_step usage get get_or reserve_call record_agent_call with_agent_call
    has_negative put
two_workers-StaysExact = ground arith

shared_replies-refines_example :
    shared_replies dictionary "research" strokes no_fields two_workers
    ≡ memory_replies new_ledger two_workers
shared_replies-refines_example =
    shared_replies-refines dictionary "research" strokes strokes_injective no_fields new_ledger
      two_workers nothing-Agrees two_workers-StaysExact
