-- ===== src/Agents/Provenance/Tracing.antt =====
-- `verify_claims` of src/research_platform/agents/provenance.py: where accepted evidence comes
-- from.
use secure_mcp_multi_agent_r.Base.{
  ℕ, suc, ◌≡◌, refl, sym, ap, subst, ◌∙◌, arith, Bool, true, false, not, nat_eq, text_eq, List, [],
  ◌∷◌, map, elem, all, String, contains, get, some, Result, ok, err, >>=-eq-ok,
}
use secure_mcp_multi_agent_r.Domain.Evidence.{EvidenceRecordCreate, EvidenceError, check_evidence}
use secure_mcp_multi_agent_r.Agents.Contracts.{EvidenceSubmission, has_repeats, check_submission}
use secure_mcp_multi_agent_r.Agents.Provenance.{
  Texts, ObservedContent, EvidenceLedger, EvidenceClaim, EvidenceClaims, Reason, Problem,
  ProvenanceError, trust_level, normalize_text, hash_content, source_uri, record_of_claim,
  traced_to, keep_record, after_claim, verify_each, submission_of, verify_claims,
}

module _ (p : Texts) (ledger : EvidenceLedger) (task_id : ℕ) where
  -- The record is of the claim and of content that the ledger recorded under the call that the
  -- claim names: the excerpt stands in that content, source, trust and access class are those of
  -- the call.
  abbrev pub IsTraced : EvidenceClaim → EvidenceRecordCreate → Type 0
  IsTraced c r =
      (o : ObservedContent) × (get ledger c.tool_invocation_id ≡ some o)
      × (contains (normalize_text p o.text_) r.excerpt ≡ true)
      × (r.excerpt ≡ normalize_text p c.excerpt)
      × (r.content_hash ≡ hash_content p c.excerpt)
      × (r.tool_invocation_id ≡ c.tool_invocation_id)
      × (r.title ≡ c.title)
      × (r.author ≡ c.author)
      × (r.published_at ≡ c.published_at)
      × (r.source_uri ≡ source_uri p o)
      × (r.trust_level ≡ trust_level o)
      × (r.access_class ≡ o.capability.max_access_class)
      × (r.producing_task_id ≡ task_id)

  -- The first record is of the first claim, and so on, and neither list is longer.
  abbrev pub AreTraced : List EvidenceClaim → List EvidenceRecordCreate → Type 0
  AreTraced [] [] = Unit
  AreTraced (c ∷ cs) (r ∷ rs) = IsTraced c r × AreTraced cs rs
  AreTraced _ _ = ⊥

  traced_to-facts :
      (seen : List String) (c : EvidenceClaim) {o : ObservedContent}
      → traced_to p ledger seen c ≡ ok o
      → (get ledger c.tool_invocation_id ≡ some o)
        × (contains (normalize_text p o.text_) (normalize_text p c.excerpt) ≡ true)
        × (elem (hash_content p c.excerpt) seen ≡ false)
  unfolding traced_to
  traced_to-facts seen c e = ground arith

  check_evidence-eq-ok :
      (r : EvidenceRecordCreate) (now : ℕ) {r' : EvidenceRecordCreate}
      → check_evidence r now ≡ ok r'
      → r' ≡ r
  unfolding check_evidence
  check_evidence-eq-ok r now e = ground arith

  hashes : List EvidenceRecordCreate → List String
  hashes records = map (λ (r : EvidenceRecordCreate). r.content_hash) records

  -- None of the hashes was seen before.
  abbrev are_new : List String → List EvidenceRecordCreate → Bool
  are_new seen records = all (λ (r : EvidenceRecordCreate). not (elem r.content_hash seen)) records

  -- What the loop finds for claims without a problem.
  abbrev IsClean : List String → List EvidenceClaim → List EvidenceRecordCreate → Type 0
  IsClean seen cs records =
      AreTraced cs records × (are_new seen records ≡ true) × (has_repeats (hashes records) ≡ false)

  later_hashes :
      (h : String) (seen : List String) (records : List EvidenceRecordCreate)
      → are_new (h ∷ seen) records ≡ true
      → (are_new seen records ≡ true) × (elem h (hashes records) ≡ false)
  unfolding hashes
  later_hashes h seen [] e = (refl, refl)
  later_hashes h seen (r ∷ rs) e = ground (
    arith,
    later_hashes h seen rs,
    text_eq.beq_iff r.content_hash h,
    text_eq.beq_iff h r.content_hash,
  )

  no_problem :
      {q : Problem} {qs : List Problem} {rs records : List EvidenceRecordCreate}
      → ◌≡◌ {A = Result ProvenanceError (List Problem × List EvidenceRecordCreate)}
          (ok (q ∷ qs, rs))
          (ok ([], records))
      → ⊥
  no_problem e = ground arith

  same_found :
      {qs : List Problem} {rs records : List EvidenceRecordCreate}
      → ◌≡◌ {A = Result ProvenanceError (List Problem × List EvidenceRecordCreate)}
          (ok (qs, rs))
          (ok ([], records))
      → (qs ≡ []) × (rs ≡ records)
  same_found e = ground arith

  IsTraced-record_of_claim :
      (c : EvidenceClaim) (o : ObservedContent)
      → get ledger c.tool_invocation_id ≡ some o
      → contains (normalize_text p o.text_) (normalize_text p c.excerpt) ≡ true
      → IsTraced c (record_of_claim p task_id c o)
  unfolding record_of_claim
  IsTraced-record_of_claim c o found inside =
      (o, found, inside, refl, refl, refl, refl, refl, refl, refl, refl, refl, refl)

  IsClean-grown :
      (seen : List String) (c : EvidenceClaim) (cs : List EvidenceClaim) (o : ObservedContent)
      (rest : List EvidenceRecordCreate)
      → traced_to p ledger seen c ≡ ok o
      → IsClean (hash_content p c.excerpt ∷ seen) cs rest
      → IsClean seen (c ∷ cs) (record_of_claim p task_id c o ∷ rest)
  unfolding record_of_claim has_repeats hashes
  IsClean-grown seen c cs o rest t (traced, new, apart) =
      let (found, inside, fresh) = traced_to-facts seen c t in
      let (new_before, elsewhere) = later_hashes (hash_content p c.excerpt) seen rest new in
      (
        (IsTraced-record_of_claim c o found inside, traced),
        ground (arith, fresh, new_before),
        ground (arith, elsewhere, apart),
      )

  keep_record-IsClean :
      (now : ℕ) (seen : List String) (c : EvidenceClaim) (cs : List EvidenceClaim)
      (o : ObservedContent)
      (accepted : Result ProvenanceError (List Problem × List EvidenceRecordCreate))
      (checked : Result EvidenceError EvidenceRecordCreate) {records : List EvidenceRecordCreate}
      → traced_to p ledger seen c ≡ ok o
      → check_evidence (record_of_claim p task_id c o) now ≡ checked
      → ((rest : List EvidenceRecordCreate)
          → accepted ≡ ok ([], rest)
          → IsClean (hash_content p c.excerpt ∷ seen) cs rest)
      → keep_record p accepted checked ≡ ok ([], records)
      → IsClean seen (c ∷ cs) records
  unfolding keep_record
  keep_record-IsClean now seen c cs o accepted (err x) t k clean e = absurd (ground arith)
  keep_record-IsClean now seen c cs o accepted (ok r) t k clean e =
      let (found, e1, e2) =
        >>=-eq-ok accepted
          (λ (found : List Problem × List EvidenceRecordCreate). ok (found.0, r ∷ found.1)) e in
      let (none_found, same) = same_found e2 in
      let kept : r ∷ found.1 ≡ record_of_claim p task_id c o ∷ found.1 =
        ap (λ (x : EvidenceRecordCreate). x ∷ found.1)
          (check_evidence-eq-ok (record_of_claim p task_id c o) now k) in
      subst (IsClean seen (c ∷ cs)) (sym kept ∙ same) (
        IsClean-grown seen c cs o found.1 t
          (clean found.1 (subst (λ qs. accepted ≡ ok (qs, found.1)) none_found e1)))

  after_claim-IsClean :
      (index now : ℕ) (seen : List String) (c : EvidenceClaim) (cs : List EvidenceClaim)
      (refused accepted : Result ProvenanceError (List Problem × List EvidenceRecordCreate))
      (traced : Result Reason ObservedContent) {records : List EvidenceRecordCreate}
      → traced_to p ledger seen c ≡ traced
      → ((rest : List EvidenceRecordCreate)
          → accepted ≡ ok ([], rest)
          → IsClean (hash_content p c.excerpt ∷ seen) cs rest)
      → after_claim p index now task_id c refused accepted traced ≡ ok ([], records)
      → IsClean seen (c ∷ cs) records
  unfolding after_claim
  after_claim-IsClean index now seen c cs refused accepted (err reason) t clean e =
      let (found, _, e2) =
        >>=-eq-ok refused
          (λ (found : List Problem × List EvidenceRecordCreate).
            ok ((index, reason) ∷ found.0, found.1))
          e in
      absurd (no_problem e2)
  after_claim-IsClean index now seen c cs refused accepted (ok o) t clean e =
      keep_record-IsClean now seen c cs o accepted
        (check_evidence (record_of_claim p task_id c o) now) t refl clean e

  verify_each-IsClean :
      (now index : ℕ) (seen : List String) (cs : List EvidenceClaim)
      {records : List EvidenceRecordCreate}
      → verify_each p ledger now task_id index seen cs ≡ ok ([], records)
      → IsClean seen cs records
  unfolding verify_each has_repeats hashes
  verify_each-IsClean now index seen [] e =
      subst (IsClean seen []) (same_found e).1 (tt, refl, refl)
  verify_each-IsClean now index seen (c ∷ cs) e =
      after_claim-IsClean index now seen c cs (verify_each p ledger now task_id (suc index) seen cs)
        (verify_each p ledger now task_id (suc index) (hash_content p c.excerpt ∷ seen) cs)
        (traced_to p ledger seen c) refl
        (λ rest. verify_each-IsClean now (suc index) (hash_content p c.excerpt ∷ seen) cs) e

  submission_of-eq-ok :
      (unmet : List String) (found : List Problem × List EvidenceRecordCreate)
      {submission : EvidenceSubmission}
      → submission_of p unmet found ≡ ok submission
      → (found.0 ≡ []) × (found.1 ≡ submission.records)
  unfolding submission_of check_submission
  submission_of-eq-ok unmet (q ∷ qs, records) e = absurd (ground arith)
  submission_of-eq-ok unmet ([], records) e = (refl, ground arith)

-- A submission that is accepted has one record for each claim, in the order of the claims; each has
-- its claim's excerpt (normalized), hash, title, author, date and call, and is of content that this
-- call returned: the excerpt stands in that content, and source, trust and access class are those
-- of the call, whatever the agent says. No two records have the same hash.
pub verify_claims-IsTraced :
    (p : Texts) (claims : EvidenceClaims) (ledger : EvidenceLedger) (task_id now : ℕ)
    (submission : EvidenceSubmission)
    → verify_claims p claims ledger task_id now ≡ ok submission
    → AreTraced p ledger task_id claims.claims submission.records
      × (has_repeats (map (λ (r : EvidenceRecordCreate). r.content_hash) submission.records)
          ≡ false)
unfolding verify_claims hashes
verify_claims-IsTraced p claims ledger task_id now submission e =
    let ((problems, records), e1, e2) =
      >>=-eq-ok (verify_each p ledger now task_id 0 [] claims.claims)
        (submission_of p claims.unmet_requirements) e in
    let (none_found, same) =
      submission_of-eq-ok p ledger task_id claims.unmet_requirements (problems, records) e2 in
    let all_fine : verify_each p ledger now task_id 0 [] claims.claims
        ≡ ok ([], submission.records) =
      e1 ∙ ap (λ (f : List Problem × List EvidenceRecordCreate). ok f) (cc (none_found, same)) in
    let (traced, _, apart) = verify_each-IsClean p ledger task_id now 0 [] claims.claims all_fine in
    (traced, apart)
