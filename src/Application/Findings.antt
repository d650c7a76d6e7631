-- ===== src/Application/Findings.antt =====
-- `derive_findings` of src/research_platform/application/publication.py, with the proposals and
-- verdicts of src/research_platform/agents/contracts.py that it reads.
pub mod Derived
use secure_mcp_multi_agent_r.Base.{
  ℕ, Bool, true, false, not, ◌&&◌, ◌||◌, leb, ◌==◌, nat_eq, text_eq, List, [], ◌∷◌, ◌++◌, filter,
  any, elem, is_empty, length, String, length_within, Dict, get, put, Option, none, some, Result,
  ok, err, guard, refuse_if, ◌>>=◌, ◌>>◌, if◌then◌else◌,
}
use secure_mcp_multi_agent_r.Domain.Evidence.{
  CriticVerdict, pending, contradicted, is_supported, is_contradicted, ReviewerStatus, Finding,
  FindingError, overlap, check_finding,
}

pub record ProposedFinding : Type 0 where
  pub claim : String
  pub supporting_evidence_ids : List ℕ
  pub contradicting_evidence_ids : List ℕ
  pub calculation_ids : List ℕ
  pub confidence : ℕ

pub data ContractError : Type 0 where
  field_out_of_bounds evidence_on_both_sides conflict_not_named no_verdict : ContractError

unfoldable pub proposed_in_bounds : ProposedFinding → Bool
proposed_in_bounds p =
    length_within 1 4_000 p.claim
    && not (is_empty p.supporting_evidence_ids)
    && leb (length p.supporting_evidence_ids) 50
    && leb (length p.contradicting_evidence_ids) 50
    && leb (length p.calculation_ids) 20
    && leb p.confidence 1_000_000

-- The bounds, and the validator `evidence_cannot_both_support_and_contradict`.
unfoldable pub check_proposed : ProposedFinding → Result ContractError ProposedFinding
check_proposed p = do
  guard (proposed_in_bounds p) field_out_of_bounds
  refuse_if (overlap p.supporting_evidence_ids p.contradicting_evidence_ids) evidence_on_both_sides
  ok p

pub record ClaimVerdict : Type 0 where
  pub claim : String
  pub verdict : CriticVerdict
  pub reasoning : String
  pub conflicting_evidence_ids : List ℕ

abbrev pub is_unreached : CriticVerdict → Bool
is_unreached pending = true
is_unreached _ = false

-- The bounds, and the validator `a_contradicted_claim_must_name_the_conflict`.
unfoldable pub check_claim_verdict : ClaimVerdict → Result ContractError ClaimVerdict
check_claim_verdict v = do
  guard
      (length_within 1 4_000 v.claim
        && length_within 1 4_000 v.reasoning
        && leb (length v.conflicting_evidence_ids) 50)
      field_out_of_bounds
  refuse_if (is_contradicted v.verdict && is_empty v.conflicting_evidence_ids) conflict_not_named
  refuse_if (is_unreached v.verdict) no_verdict
  ok v

-- `requires_reviewer` of `CriticReview`.
unfoldable pub requires_reviewer : List ClaimVerdict → (coverage_gaps : List String) → Bool
requires_reviewer verdicts coverage_gaps =
    not (is_empty coverage_gaps) || any (λ v. is_contradicted v.verdict) verdicts

-- `{verdict.claim: verdict for verdict in verdicts}`
unfoldable pub verdicts_by_claim :
    Dict String ClaimVerdict → List ClaimVerdict → Dict String ClaimVerdict
verdicts_by_claim d [] = d
verdicts_by_claim d (v ∷ vs) = verdicts_by_claim (put d v.claim v) vs

-- `dict.fromkeys(ids)`: each identifier once, where it first stands.
unfoldable pub first_occurrences : List ℕ → List ℕ
first_occurrences [] = []
first_occurrences (i ∷ is) = i ∷ filter (λ j. not (j == i)) (first_occurrences is)

unfoldable pub conflicting_ids : Option ClaimVerdict → List ℕ
conflicting_ids none = []
conflicting_ids (some v) = v.conflicting_evidence_ids

unfoldable pub verdict_of : Option ClaimVerdict → CriticVerdict
verdict_of none = pending
verdict_of (some v) = v.verdict

-- `contradicting` of one proposal.
unfoldable pub contradicting_ids : ProposedFinding → Option ClaimVerdict → List ℕ
unfolding first_occurrences conflicting_ids
contradicting_ids p v =
    filter (λ i. not (elem i p.supporting_evidence_ids))
      (first_occurrences (p.contradicting_evidence_ids ++ conflicting_ids v))

-- The finding that the body of the loop builds.
unfoldable pub joined : ProposedFinding → Option ClaimVerdict → ReviewerStatus → Finding
unfolding contradicting_ids verdict_of
joined p v reviewer_status =
    let contradicting = contradicting_ids p v in
    let verdict = verdict_of v in
    record {
      claim = p.claim;
      supporting_evidence_ids = p.supporting_evidence_ids;
      contradicting_evidence_ids = contradicting;
      calculation_ids = p.calculation_ids;
      confidence = p.confidence;
      critic_verdict =
          if is_supported verdict && not (is_empty contradicting) then contradicted else verdict;
      reviewer_status = reviewer_status;
    }

-- Constructing the finding validates it.
unfoldable pub derive_finding :
    ProposedFinding → Option ClaimVerdict → ReviewerStatus → Result FindingError Finding
unfolding joined
derive_finding p v reviewer_status = check_finding (joined p v reviewer_status)

unfoldable pub derive_each :
    Dict String ClaimVerdict
    → List ProposedFinding
    → ReviewerStatus
    → Result FindingError (List Finding)
unfolding derive_finding
derive_each verdicts [] reviewer_status = ok []
derive_each verdicts (p ∷ ps) reviewer_status = do
  f ← derive_finding p (get verdicts p.claim) reviewer_status
  fs ← derive_each verdicts ps reviewer_status
  ok (f ∷ fs)

-- `derive_findings`, of the proposals of the analysis and the verdicts of the critique.
unfoldable pub derive_findings :
    List ProposedFinding → List ClaimVerdict → ReviewerStatus → Result FindingError (List Finding)
unfolding derive_each verdicts_by_claim
derive_findings proposed verdicts reviewer_status =
    derive_each (verdicts_by_claim [] verdicts) proposed reviewer_status
