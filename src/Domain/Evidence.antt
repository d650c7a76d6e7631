-- ===== src/Domain/Evidence.antt =====
-- The evidence and the findings of src/research_platform/domain/models.py. A confidence is in
-- millionths. Reading the clock is an argument.
use secure_mcp_multi_agent_r.Base.{
  ℕ, Bool, true, false, not, ◌&&◌, leb, ltb, ◌==◌, nat_eq, text_eq, List, any, elem, is_empty,
  length, String, length_within, Option, none, some, Result, ok, guard, refuse_if, ◌>>◌,
}
use secure_mcp_multi_agent_r.Domain.Access.{AccessClass, is_publishable_class}
use secure_mcp_multi_agent_r.Domain.Invocations.{is_digest}

pub data TrustLevel : Type 0 where
  primary secondary unverified : TrustLevel

pub record EvidenceRecordCreate : Type 0 where
  pub excerpt : String
  pub source_uri : String
  pub title : Option String
  pub author : Option String
  pub published_at : Option ℕ
  pub trust_level : TrustLevel
  pub access_class : AccessClass
  pub content_hash : String
  pub producing_task_id : ℕ
  pub tool_invocation_id : ℕ

pub data EvidenceError : Type 0 where
  field_out_of_bounds published_in_the_future : EvidenceError

abbrev pub at_most : ℕ → Option String → Bool
at_most high text = elim text [ none ↦ true | some s ↦ length_within 0 high s ]

-- The bounds, and the validator `publication_date_cannot_be_in_the_future`.
unfoldable pub check_evidence :
    EvidenceRecordCreate → (now : ℕ) → Result EvidenceError EvidenceRecordCreate
check_evidence e now = do
  guard
      (length_within 1 4_000 e.excerpt
        && length_within 1 4_000 e.source_uri
        && at_most 500 e.title
        && at_most 200 e.author
        && is_digest e.content_hash)
      field_out_of_bounds
  refuse_if (elim e.published_at [ none ↦ false | some at ↦ ltb now at ]) published_in_the_future
  ok e

pub record EvidenceRecord : Type 0 where
  pub content : EvidenceRecordCreate
  pub id : ℕ
  pub job_id : ℕ
  pub tenant_id : String
  pub retrieved_at : ℕ

unfoldable pub is_publishable_evidence : EvidenceRecord → Bool
is_publishable_evidence e = is_publishable_class e.content.access_class

unfoldable pub has_drifted_from : EvidenceRecord → String → Bool
has_drifted_from e observed_hash = not (e.content.content_hash == observed_hash)

pub data CriticVerdict : Type 0 where
  pending supported unsupported contradicted : CriticVerdict

abbrev pub is_supported : CriticVerdict → Bool
is_supported supported = true
is_supported _ = false

abbrev pub is_contradicted : CriticVerdict → Bool
is_contradicted contradicted = true
is_contradicted _ = false

pub data ReviewerStatus : Type 0 where
  not_required awaited approved rejected : ReviewerStatus

-- Neither rejected nor pending.
abbrev pub is_cleared : ReviewerStatus → Bool
is_cleared not_required = true
is_cleared awaited = false
is_cleared approved = true
is_cleared rejected = false

pub record Finding : Type 0 where
  pub claim : String
  pub supporting_evidence_ids : List ℕ
  pub contradicting_evidence_ids : List ℕ
  pub calculation_ids : List ℕ
  pub confidence : ℕ
  pub critic_verdict : CriticVerdict
  pub reviewer_status : ReviewerStatus

pub data FindingError : Type 0 where
  finding_out_of_bounds evidence_on_both_sides supported_despite_conflict : FindingError

-- `set(a) & set(b)` is not empty.
abbrev pub overlap : List ℕ → List ℕ → Bool
overlap a b = any (λ i. elem i b) a

unfoldable pub finding_in_bounds : Finding → Bool
finding_in_bounds f =
    length_within 1 4_000 f.claim
    && not (is_empty f.supporting_evidence_ids)
    && leb (length f.calculation_ids) 50
    && leb f.confidence 1_000_000

-- The bounds, and the validator `evidence_sets_must_not_overlap`.
unfoldable pub check_finding : Finding → Result FindingError Finding
check_finding f = do
  guard (finding_in_bounds f) finding_out_of_bounds
  refuse_if (overlap f.supporting_evidence_ids f.contradicting_evidence_ids) evidence_on_both_sides
  refuse_if (is_supported f.critic_verdict && not (is_empty f.contradicting_evidence_ids))
      supported_despite_conflict
  ok f

unfoldable pub is_publishable_finding : Finding → Bool
is_publishable_finding f = is_supported f.critic_verdict && is_cleared f.reviewer_status

-- `FindingRecord`: a finding with what it is stored under.
pub record FindingRecord : Type 0 where
  pub finding : Finding
  pub id : ℕ
  pub job_id : ℕ
  pub tenant_id : String
  pub recorded_at : ℕ
