-- ===== src/Application/Findings/Derived.antt =====
-- About `derive_findings` of src/research_platform/application/publication.py.
use secure_mcp_multi_agent_r.Base.{
  ℕ, ◌≡◌, refl, true, false, not, ◌&&◌, arith, nat_eq, nat_beq_iff, text_eq, List, [], ◌∷◌, ◌++◌,
  filter, all, All, elem, is_empty, get, subst, sym, ◌∙◌, map, Bool, Bool-cases, inl, inr, Dict,
  String, Option, ok, ◌==◌,
}
use secure_mcp_multi_agent_r.Domain.Evidence.{
  is_supported, is_cleared, ReviewerStatus, Finding, overlap, check_finding, finding_in_bounds,
  is_publishable_finding,
}
use secure_mcp_multi_agent_r.Application.Findings.{
  ProposedFinding, ClaimVerdict, check_proposed, proposed_in_bounds, verdicts_by_claim,
  first_occurrences, conflicting_ids, verdict_of, contradicting_ids, joined, derive_finding,
  derive_each, derive_findings,
}

not_outside :
    (x : ℕ) (inside b : List ℕ)
    → elem x inside ≡ true
    → elem x (filter (λ i. not (elem i inside)) b) ≡ false
not_outside x inside [] h = refl
not_outside x inside (y ∷ b) h = elim (Bool-cases (x == y)) [
  | inl same ↦
      let e : x ≡ y = (nat_beq_iff x y).0 same in
      let there : elem y inside ≡ true = subst (λ i. elem i inside ≡ true) e h in
      rw there (not_outside x inside b h)
  | inr other ↦ ground (arith, not_outside x inside b h)
]

-- Evidence outside a list does not overlap it.
overlap-filter :
    (a b inside : List ℕ)
    → all (λ i. elem i inside) a ≡ true
    → overlap a (filter (λ i. not (elem i inside)) b) ≡ false
overlap-filter [] b inside h = refl
overlap-filter (x ∷ a) b inside h =
    ground (arith, not_outside x inside b, overlap-filter a b inside)

all_in_longer :
    (x : ℕ) (xs ys : List ℕ) → all (λ i. elem i xs) ys ≡ true → all (λ i. elem i (x ∷ xs)) ys ≡ true
all_in_longer x xs [] h = refl
all_in_longer x xs (y ∷ ys) h = ground (arith, all_in_longer x xs ys)

all_in_itself : (xs : List ℕ) → all (λ i. elem i xs) xs ≡ true
all_in_itself [] = refl
all_in_itself (x ∷ xs) = ground (arith, nat_beq_iff x x, all_in_longer x xs xs (all_in_itself xs))

module _ (q : ℕ → Bool) where
  all-filter_other :
      (x : ℕ) (xs : List ℕ) → q x ≡ true → all q (filter (λ j. not (j == x)) xs) ≡ all q xs
  all-filter_other x [] h = refl
  all-filter_other x (y ∷ xs) h = elim (Bool-cases (y == x)) [
    | inl same ↦
        let e : x ≡ y = sym ((nat_beq_iff y x).0 same) in
        let there : q y ≡ true = subst (λ i. q i ≡ true) e h in
        ground (arith, all-filter_other x xs h)
    | inr other ↦ ground (arith, all-filter_other x xs h)
  ]

  all-first_occurrences : (xs : List ℕ) → all q (first_occurrences xs) ≡ all q xs
  unfolding first_occurrences
  all-first_occurrences [] = refl
  all-first_occurrences (x ∷ xs) =
      ground (arith, all-filter_other x (first_occurrences xs), all-first_occurrences xs)

  is_empty-filter-not : (xs : List ℕ) → is_empty (filter (λ i. not (q i)) xs) ≡ all q xs
  is_empty-filter-not [] = refl
  is_empty-filter-not (x ∷ xs) = ground (arith, is_empty-filter-not xs)

-- The critic supports the claim, and all evidence that the proposal or the verdict names against
-- it is evidence for it too.
unfoldable pub is_unopposed : ProposedFinding → Option ClaimVerdict → Bool
is_unopposed p v =
    is_supported (verdict_of v)
    && all (λ i. elem i p.supporting_evidence_ids)
        (p.contradicting_evidence_ids ++ conflicting_ids v)

is_empty-contradicting_ids :
    (p : ProposedFinding) (v : Option ClaimVerdict)
    → is_empty (contradicting_ids p v)
      ≡ all
          (λ i. elem i p.supporting_evidence_ids)
          (p.contradicting_evidence_ids ++ conflicting_ids v)
unfolding contradicting_ids
is_empty-contradicting_ids p v =
    let inside = λ (i : ℕ). elem i p.supporting_evidence_ids in
    let conflicting = p.contradicting_evidence_ids ++ conflicting_ids v in
    is_empty-filter-not inside (first_occurrences conflicting)
    ∙ all-first_occurrences inside conflicting

overlap-contradicting_ids :
    (p : ProposedFinding) (v : Option ClaimVerdict)
    → overlap p.supporting_evidence_ids (contradicting_ids p v) ≡ false
unfolding contradicting_ids
overlap-contradicting_ids p v =
    overlap-filter p.supporting_evidence_ids
      (first_occurrences (p.contradicting_evidence_ids ++ conflicting_ids v))
      p.supporting_evidence_ids (all_in_itself p.supporting_evidence_ids)

-- A proposal that passed its validator yields a finding that passes the finding's.
derive_finding-eq-ok :
    (p : ProposedFinding) (v : Option ClaimVerdict) (status : ReviewerStatus)
    → check_proposed p ≡ ok p
    → derive_finding p v status ≡ ok (joined p v status)
unfolding derive_finding joined check_proposed proposed_in_bounds check_finding finding_in_bounds
derive_finding-eq-ok p v status h = ground (arith, overlap-contradicting_ids p v)

is_publishable-joined :
    (p : ProposedFinding) (v : Option ClaimVerdict) (status : ReviewerStatus)
    → is_publishable_finding (joined p v status) ≡ (is_unopposed p v && is_cleared status)
unfolding joined is_publishable_finding is_unopposed
is_publishable-joined p v status = ground (arith, is_empty-contradicting_ids p v)

derive_each-joined :
    (d : Dict String ClaimVerdict) (ps : List ProposedFinding) (status : ReviewerStatus)
    → All (λ p. check_proposed p ≡ ok p) ps
    → derive_each d ps status ≡ ok (map (λ p. joined p (get d p.claim) status) ps)
unfolding derive_each
derive_each-joined d [] status h = refl
derive_each-joined d (p ∷ ps) status h =
    let first = derive_finding-eq-ok p (get d p.claim) status h.0 in
    rw (first, derive_each) (rw (derive_each-joined d ps status h.1, derive_each))

publishable_joined :
    (d : Dict String ClaimVerdict) (ps : List ProposedFinding) (status : ReviewerStatus)
    → map is_publishable_finding (map (λ p. joined p (get d p.claim) status) ps)
      ≡ map (λ p. is_unopposed p (get d p.claim) && is_cleared status) ps
publishable_joined d [] status = refl
publishable_joined d (p ∷ ps) status =
    cc (is_publishable-joined p (get d p.claim) status, publishable_joined d ps status)

-- Proposals that passed their validator always yield findings, one for each, whatever the critic
-- and the reviewer said. A finding may be published exactly if the last verdict on its claim
-- supports it, all evidence named against it is evidence for it too, and the reviewer has neither
-- rejected it nor still to decide. Evidence that is named on both sides counts as support: it is
-- dropped from the evidence against the claim, and does not keep the finding from being published.
pub derive_findings-publishable :
    (proposed : List ProposedFinding) (verdicts : List ClaimVerdict) (status : ReviewerStatus)
    → All (λ p. check_proposed p ≡ ok p) proposed
    → (fs : List Finding) × (derive_findings proposed verdicts status ≡ ok fs)
      × (map is_publishable_finding fs
          ≡ map
              (λ p.
                is_unopposed p (get (verdicts_by_claim [] verdicts) p.claim) && is_cleared status)
              proposed)
unfolding derive_findings
derive_findings-publishable proposed verdicts status h =
    let d = verdicts_by_claim [] verdicts in
    (
      map (λ p. joined p (get d p.claim) status) proposed,
      derive_each-joined d proposed status h,
      publishable_joined d proposed status,
    )
