-- ===== src/Application/Jobs/Trail.antt =====
-- About `record_invocation` of src/research_platform/application/jobs.py.
use secure_mcp_multi_agent_r.Base.{
  ◌≡◌, refl, sym, ap, ◌∙◌, Bool, Bool-cases, inl, inr, true, ◌||◌, arith, ◌==◌, nat_eq, nat_beq_iff,
  text_eq, pair_eq, pair_beq_iff, List, [], ◌∷◌, ◌++◌, any, get_or, get_or-put, if◌then◌else◌,
}
use secure_mcp_multi_agent_r.Domain.Invocations.{ToolInvocation}
use secure_mcp_multi_agent_r.Application.Jobs.{
  Store, Key, create, add_job, transition, update_job, record_checkpoint, add_evidence,
  store_evidence, record_invocation, record_findings, replace_findings, record_publication,
}
use secure_mcp_multi_agent_r.Application.Jobs.Reached.{
  ServiceCall, creating, moving, marking, citing, auditing, judging, publishing, after_call,
  after_calls,
}

-- The trail of a job, in the order in which it was recorded.
abbrev pub records_at : Store → Key → List ToolInvocation
records_at s key = get_or s.invocations key []

-- Whether a record with this identifier stands in the trail that the record belongs to.
unfoldable pub is_recorded : Store → ToolInvocation → Bool
is_recorded s i = any (λ (j : ToolInvocation). j.id == i.id) (records_at s (i.tenant_id, i.job_id))

-- What recording adds at the end of the trail.
abbrev pub new_record : Store → ToolInvocation → List ToolInvocation
unfolding is_recorded
new_record s i = if is_recorded s i then [] else i ∷ []

has_id-append :
    (i : ToolInvocation) (l k : List ToolInvocation)
    → any (λ (j : ToolInvocation). j.id == i.id) (l ++ k) ≡ (
        any (λ (j : ToolInvocation). j.id == i.id) l
        || any (λ (j : ToolInvocation). j.id == i.id) k)
has_id-append i [] k = refl
has_id-append i (j ∷ l) k = ground (arith, has_id-append i l k)

append_nil : (l : List ToolInvocation) → l ++ [] ≡ l
append_nil [] = refl
append_nil (x ∷ l) = ap (λ t. x ∷ t) (append_nil l)

append_assoc : (l k m : List ToolInvocation) → l ++ k ++ m ≡ l ++ (k ++ m)
append_assoc [] k m = refl
append_assoc (x ∷ l) k m = ap (λ t. x ∷ t) (append_assoc l k m)

records_at-record_invocation :
    (s : Store) (i : ToolInvocation) (key : Key)
    → records_at (record_invocation s i) key
      ≡ records_at s key ++ (if (i.tenant_id, i.job_id) == key then new_record s i else [])
unfolding record_invocation is_recorded
records_at-record_invocation s i key =
    let mine : Key = (i.tenant_id, i.job_id) in
    let l = get_or s.invocations mine [] in
    ground (
      arith,
      get_or-put s.invocations mine key (l ++ i ∷ []) [],
      pair_beq_iff mine key,
      append_nil (records_at s key),
    )

-- The trail only grows, and at its end.
abbrev IsPrefix : List ToolInvocation → List ToolInvocation → Type 0
IsPrefix l k = (more : List ToolInvocation) × (k ≡ l ++ more)

after_call-IsPrefix :
    (s : Store) (key : Key) (c : ServiceCall)
    → IsPrefix (records_at s key) (records_at (after_call s c) key)
unfolding after_call create add_job transition update_job record_checkpoint add_evidence
    store_evidence record_findings replace_findings record_publication
after_call-IsPrefix s key (creating t r command clearance id now) =
    ([], ground (arith, append_nil (records_at s key)))
after_call-IsPrefix s key (moving t j target detail usage now) =
    ([], ground (arith, append_nil (records_at s key)))
after_call-IsPrefix s key (marking t j w r now) =
    ([], ground (arith, append_nil (records_at s key)))
after_call-IsPrefix s key (citing t j command fresh_id now) =
    ([], ground (arith, append_nil (records_at s key)))
after_call-IsPrefix s key (auditing k) = (
  if (k.tenant_id, k.job_id) == key then new_record s k else [],
  records_at-record_invocation s k key,
)
after_call-IsPrefix s key (judging t j fresh now findings) =
    ([], ground (arith, append_nil (records_at s key)))
after_call-IsPrefix s key (publishing p) = ([], ground (arith, append_nil (records_at s key)))

after_calls-IsPrefix :
    (s : Store) (key : Key) (cs : List ServiceCall)
    → IsPrefix (records_at s key) (records_at (after_calls s cs) key)
unfolding after_calls
after_calls-IsPrefix s key [] = ([], sym (append_nil (records_at s key)))
after_calls-IsPrefix s key (c ∷ cs) =
    let (more, e) = after_call-IsPrefix s key c in
    let (rest, f) = after_calls-IsPrefix (after_call s c) key cs in
    (more ++ rest, f ∙ (ap (λ l. l ++ rest) e ∙ append_assoc (records_at s key) more rest))

recorded_again :
    (s : Store) (i : ToolInvocation) → is_recorded s i ≡ true → record_invocation s i ≡ s
unfolding record_invocation is_recorded
recorded_again s i h = rw (h, record_invocation)

records_at-own_record :
    (s : Store) (i : ToolInvocation)
    → records_at (record_invocation s i) (i.tenant_id, i.job_id)
      ≡ records_at s (i.tenant_id, i.job_id) ++ new_record s i
records_at-own_record s i =
    let key : Key = (i.tenant_id, i.job_id) in
    ground (arith, records_at-record_invocation s i key, pair_beq_iff key key)

is_recorded-grown :
    (s s' : Store) (i : ToolInvocation) (more : List ToolInvocation)
    → records_at s' (i.tenant_id, i.job_id)
      ≡ records_at s (i.tenant_id, i.job_id) ++ new_record s i ++ more
    → is_recorded s' i ≡ true
unfolding is_recorded
is_recorded-grown s s' i more e =
    let l = records_at s (i.tenant_id, i.job_id) in
    let n = new_record s i in
    let inside = λ (k : List ToolInvocation). any (λ (j : ToolInvocation). j.id == i.id) k in
    let split : inside (l ++ n ++ more) ≡ (inside l || inside n || inside more) =
      has_id-append i (l ++ n) more ∙ ap (λ b. b || inside more) (has_id-append i l n) in
    ap inside e
    ∙ (split ∙ (elim (Bool-cases (inside l)) [
      | inl h ↦ rw h refl
      | inr h ↦ rw (h, is_recorded) (ground (arith, nat_beq_iff i.id i.id))
    ]))

-- Whatever calls follow, the trail to which an audit record was added is the trail that stood there
-- before, then the record, if its identifier was new, then what was added later: no record is lost
-- or moved, and this one stands in it. Recording it again changes nothing.
pub record_invocation-after_calls :
    (s : Store) (i : ToolInvocation) (cs : List ServiceCall)
    → ((more : List ToolInvocation) × (records_at
            (after_calls (record_invocation s i) cs)
            (i.tenant_id, i.job_id)
          ≡ records_at s (i.tenant_id, i.job_id) ++ new_record s i ++ more))
      × (is_recorded (after_calls (record_invocation s i) cs) i ≡ true)
      × (record_invocation (after_calls (record_invocation s i) cs) i
          ≡ after_calls (record_invocation s i) cs)
record_invocation-after_calls s i cs =
    let key : Key = (i.tenant_id, i.job_id) in
    let s' = after_calls (record_invocation s i) cs in
    let (more, e) = after_calls-IsPrefix (record_invocation s i) key cs in
    let grown : records_at s' key ≡ records_at s key ++ new_record s i ++ more =
      e ∙ ap (λ l. l ++ more) (records_at-own_record s i) in
    let there = is_recorded-grown s s' i more grown in
    ((more, grown), there, recorded_again s' i there)
