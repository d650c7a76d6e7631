-- ===== src/Agents/Provenance.antt =====
-- src/research_platform/agents/provenance.py: from what a researcher claims to evidence. Unicode
-- composition, `str.split`, `strip`, `lstrip('/')`, `str` and the digests are parameters; the clock
-- that the records read is an argument.
pub mod Tracing
use secure_mcp_multi_agent_r.Base.{
  ℕ, zero, suc, Bool, true, false, not, ◌&&◌, ◌||◌, leb, ◌==◌, nat_eq, text_eq, List, [], ◌∷◌, map,
  all, elem, is_empty, length, String, contains, has_prefix, char_count, length_within, take_chars,
  Dict, get, put, Option, none, some, Result, ok, err, guard, ◌>>=◌, ◌>>◌, if◌then◌else◌,
}
use Prim.Native.String.{◌++◌ as ◌<>◌}
use secure_mcp_multi_agent_r.Domain.Access.{AccessClass}
use secure_mcp_multi_agent_r.Domain.Evidence.{
  TrustLevel, primary, secondary, EvidenceRecordCreate, EvidenceError, check_evidence, at_most,
}
use secure_mcp_multi_agent_r.Domain.Invocations.{Value, text, Arguments, ToolInvocation}
use secure_mcp_multi_agent_r.Mcp.Registry.{Capability}
use secure_mcp_multi_agent_r.Agents.Contracts.{EvidenceSubmission, ContractError, check_submission}

-- The text functions that are Python's or its libraries'.
pub record Texts : Type 0 where
  pub composed : String → String
  pub split : String → List String
  pub strip : String → String
  pub without_slashes : String → String
  pub rendered : Value → String
  pub digest : String → String
  pub argument_digest : Arguments → String

-- `" ".join(words)`
unfoldable pub spaced : List String → String
spaced [] = ""
spaced (w ∷ []) = w
spaced (w ∷ v ∷ rest) = w <> (" " <> spaced (v ∷ rest))

-- `s[n:]`
unfoldable pub without_first : ℕ → String → String
without_first zero s = s
without_first (suc n) String.[] = ""
without_first (suc n) (String.◌∷◌ c s) = without_first n s

-- `s.removeprefix(p)`
unfoldable pub remove_prefix : String → String → String
unfolding without_first
remove_prefix s p = if has_prefix s p then without_first (char_count p) s else s

-- What one successful tool call returned.
pub record ObservedContent : Type 0 where
  pub invocation : ToolInvocation
  pub capability : Capability
  pub arguments : Arguments
  pub text_ : String

abbrev pub EvidenceLedger : Type 0
EvidenceLedger = Dict ℕ ObservedContent

-- `EvidenceLedger.record`
unfoldable pub record_content :
    EvidenceLedger → ToolInvocation → Capability → Arguments → String → EvidenceLedger
record_content ledger invocation capability arguments content = put ledger invocation.id (record {
  invocation = invocation;
  capability = capability;
  arguments = arguments;
  text_ = content;
})

pub record EvidenceClaim : Type 0 where
  pub excerpt : String
  pub tool_invocation_id : ℕ
  pub title : Option String
  pub author : Option String
  pub published_at : Option ℕ

pub record EvidenceClaims : Type 0 where
  pub claims : List EvidenceClaim
  pub unmet_requirements : List String

-- The bounds of both models.
unfoldable pub claims_in_bounds : EvidenceClaims → Bool
claims_in_bounds c =
    not (is_empty c.claims)
    && leb (length c.claims) 100
    && all
        (λ (e : EvidenceClaim).
          length_within 1 4_000 e.excerpt && at_most 500 e.title && at_most 200 e.author)
        c.claims
    && leb (length c.unmet_requirements) 20
    && all (λ r. length_within 1 4_000 r) c.unmet_requirements

pub data Reason : Type 0 where
  unknown_call excerpt_not_found excerpt_repeated : Reason

-- A problem with the claim at a position.
abbrev pub Problem : Type 0
Problem = ℕ × Reason

-- `UnverifiableEvidence`, and the validation errors of the models that are built.
pub data ProvenanceError : Type 0 where
  unverifiable_evidence : List Problem → ProvenanceError
  invalid_record : EvidenceError → ProvenanceError
  invalid_submission : ContractError → ProvenanceError

-- `SUMMARISING_CAPABILITIES`
unfoldable pub trust_level : ObservedContent → TrustLevel
trust_level o =
    if (o.capability.server == "web-research") && (o.capability.name == "search")
    then secondary
    else primary

module _ (p : Texts) where
  unfoldable pub normalize_text : String → String
  unfolding spaced
  normalize_text t = spaced (p.split (p.composed t))

  unfoldable pub hash_content : String → String
  unfolding normalize_text
  hash_content t = "sha256:" <> p.digest (normalize_text t)

  -- `str(arguments.get(name, ""))`
  unfoldable pub argument : Arguments → String → String
  argument arguments name = elim (get arguments name) [
    | none ↦ p.rendered (text "")
    | some v ↦ p.rendered v
  ]

  -- `argument_digest(arguments).removeprefix("sha256:")[:16]`
  unfoldable pub short_digest : Arguments → String
  unfolding remove_prefix
  short_digest arguments = take_chars 16 (remove_prefix (p.argument_digest arguments) "sha256:")

  unfoldable pub source_of : Capability → (tenant_id : String) → Arguments → String
  unfolding argument short_digest
  source_of c tenant_id arguments =
      if (c.server == "web-research") && (c.name == "fetch")
      then p.strip (argument arguments "url")
      else if (c.server == "filesystem") && (c.name == "read_document")
      then "workspace://" <> (tenant_id <> ("/" <> p.without_slashes (argument arguments "path")))
      else if c.server == "github"
      then "https://github.com/" <> p.strip (argument arguments "repository")
      else c.server <> ("://" <> (c.name <> ("/" <> short_digest arguments)))

  -- `ObservedContent.source_uri`
  unfoldable pub source_uri : ObservedContent → String
  unfolding source_of
  source_uri o = source_of o.capability o.invocation.tenant_id o.arguments

  -- The record of a claim that was traced to a call.
  unfoldable pub record_of_claim :
      (task_id : ℕ) → EvidenceClaim → ObservedContent → EvidenceRecordCreate
  unfolding normalize_text hash_content source_uri trust_level
  record_of_claim task_id c o = record {
    excerpt = normalize_text c.excerpt;
    source_uri = source_uri o;
    title = c.title;
    author = c.author;
    published_at = c.published_at;
    trust_level = trust_level o;
    access_class = o.capability.max_access_class;
    content_hash = hash_content c.excerpt;
    producing_task_id = task_id;
    tool_invocation_id = c.tool_invocation_id;
  }

  -- The checks of one claim: why it is refused, or the call it is traced to.
  unfoldable pub traced_to :
      EvidenceLedger → (seen : List String) → EvidenceClaim → Result Reason ObservedContent
  unfolding normalize_text hash_content
  traced_to ledger seen c = elim (get ledger c.tool_invocation_id) [
    | none ↦ err unknown_call
    | some o ↦
        if not (contains (normalize_text o.text_) (normalize_text c.excerpt))
        then err excerpt_not_found
        else if elem (hash_content c.excerpt) seen
        then err excerpt_repeated
        else ok o
  ]

  -- A record that passes the checks of its model stands before those that follow.
  unfoldable pub keep_record :
      (accepted : Result ProvenanceError (List Problem × List EvidenceRecordCreate))
      → Result EvidenceError EvidenceRecordCreate
      → Result ProvenanceError (List Problem × List EvidenceRecordCreate)
  keep_record accepted (err e) = err (invalid_record e)
  keep_record accepted (ok r) = accepted >>= λ found. ok (found.0, r ∷ found.1)

  -- The rest of the loop behind one claim; `refused` and `accepted` are what follows.
  unfoldable pub after_claim :
      (index now task_id : ℕ)
      → EvidenceClaim
      → (refused accepted : Result ProvenanceError (List Problem × List EvidenceRecordCreate))
      → Result Reason ObservedContent
      → Result ProvenanceError (List Problem × List EvidenceRecordCreate)
  unfolding record_of_claim keep_record
  after_claim index now task_id c refused accepted (err reason) =
      refused >>= λ found. ok ((index, reason) ∷ found.0, found.1)
  after_claim index now task_id c refused accepted (ok o) =
      keep_record accepted (check_evidence (record_of_claim task_id c o) now)

  -- The loop over the claims: the problems and the records.
  unfoldable pub verify_each :
      EvidenceLedger
      → (now task_id index : ℕ) → (seen : List String) → List EvidenceClaim
      → Result ProvenanceError (List Problem × List EvidenceRecordCreate)
  unfolding after_claim traced_to hash_content
  verify_each ledger now task_id index seen [] = ok ([], [])
  verify_each ledger now task_id index seen (c ∷ cs) =
      after_claim index now task_id c (verify_each ledger now task_id (suc index) seen cs)
        (verify_each ledger now task_id (suc index) (hash_content c.excerpt ∷ seen) cs)
        (traced_to ledger seen c)

  -- The whole submission is refused when one claim is.
  unfoldable pub submission_of :
      List String
      → List Problem × List EvidenceRecordCreate
      → Result ProvenanceError EvidenceSubmission
  submission_of unmet (problem ∷ problems, records) =
      err (unverifiable_evidence (problem ∷ problems))
  submission_of unmet ([], records) =
      elim (check_submission (record { records = records; unmet_requirements = unmet })) [
        | err e ↦ err (invalid_submission e)
        | ok submission ↦ ok submission
      ]

  unfoldable pub verify_claims :
      EvidenceClaims
      → EvidenceLedger
      → (task_id now : ℕ) → Result ProvenanceError EvidenceSubmission
  unfolding verify_each submission_of
  verify_claims claims ledger task_id now =
      verify_each ledger now task_id 0 [] claims.claims >>= submission_of claims.unmet_requirements
