-- ===== src/Agents/Contracts.antt =====
-- The plan, the submission, the analysis, the review and the report of
-- src/research_platform/agents/contracts.py. `CITATION`, with the reading of the identifiers that
-- it finds, and the splitting of a body into uncited sentences are parameters.
pub mod Plans
use secure_mcp_multi_agent_r.Base.{
  ℕ, zero, suc, Bool, false, not, ◌&&◌, ◌||◌, leb, ◌==◌, nat_eq, text_eq, List, [], ◌∷◌, ◌++◌, map,
  filter, any, all, elem, is_empty, length, String, length_within, Option, none, some, Result, ok,
  err, guard, refuse_if, ◌>>◌, if◌then◌else◌,
}
use secure_mcp_multi_agent_r.Domain.Tasks.{AgentRole, planner, researcher, role_eq}
use secure_mcp_multi_agent_r.Domain.Evidence.{EvidenceRecordCreate}
use secure_mcp_multi_agent_r.Application.Findings.{ProposedFinding, ClaimVerdict}

pub record PlannedTask : Type 0 where
  pub objective : String
  pub assigned_agent : AgentRole
  pub evidence_requirements : List String
  pub source_restrictions : List String
  pub depends_on : List ℕ

-- Pydantic's errors; `out_of_fuel` is the model's own.
pub data ContractError : Type 0 where
  field_out_of_bounds assigned_to_planner missing_dependency depends_on_itself : ContractError
  plan_has_cycle repeated_excerpt missing_calculation uncited_facts : ContractError
  unlabelled_partial omissions_of_complete out_of_fuel : ContractError

abbrev pub all_texts : List String → Bool
all_texts texts = all (λ t. length_within 1 4_000 t) texts

-- The bounds, and `only_collecting_agents_may_be_assigned_evidence`.
unfoldable pub check_planned_task : PlannedTask → Result ContractError PlannedTask
check_planned_task t = do
  guard
      (length_within 1 4_000 t.objective
        && not (is_empty t.evidence_requirements)
        && leb (length t.evidence_requirements) 20
        && all_texts t.evidence_requirements
        && leb (length t.source_restrictions) 20
        && all_texts t.source_restrictions
        && leb (length t.depends_on) 20)
      field_out_of_bounds
  refuse_if (t.assigned_agent == planner) assigned_to_planner
  ok t

pub record ResearchPlan : Type 0 where
  pub tasks : List PlannedTask
  pub rationale : String

-- The loop over the positions: each dependency names another task of the plan.
unfoldable pub find_bad_dependency : (count position : ℕ) → List PlannedTask → Option ContractError
find_bad_dependency count position [] = none
find_bad_dependency count position (t ∷ ts) =
    let rest = find_bad_dependency count (suc position) ts in
    if any (λ d. leb count d) t.depends_on
    then some missing_dependency
    else if elem position t.depends_on
    then some depends_on_itself
    else rest

-- The tasks with their positions.
unfoldable pub positioned : ℕ → List PlannedTask → List (ℕ × List ℕ)
positioned n [] = []
positioned n (t ∷ ts) = (n, t.depends_on) ∷ positioned (suc n) ts

abbrev pub is_placeable : List ℕ → ℕ × List ℕ → Bool
is_placeable placed (position, depends_on) = all (λ d. elem d placed) depends_on

abbrev pub positions : List (ℕ × List ℕ) → List ℕ
positions tasks = map (λ t. t.0) tasks

-- The `while remaining` loop of `_reject_cycles`, on fuel.
unfoldable pub reject_cycles : ℕ → List ℕ → List (ℕ × List ℕ) → Result ContractError (Unit {0})
reject_cycles fuel placed [] = ok tt
reject_cycles zero placed (t ∷ ts) = err out_of_fuel
reject_cycles (suc fuel) placed (t ∷ ts) =
    let ready = filter (is_placeable placed) (t ∷ ts) in
    let rest =
      reject_cycles fuel (placed ++ positions ready)
        (filter (λ u. not (is_placeable placed u)) (t ∷ ts)) in
    if is_empty ready then err plan_has_cycle else rest

-- The bounds, and `dependencies_must_resolve_without_a_cycle`.
unfoldable pub check_plan : ResearchPlan → Result ContractError ResearchPlan
check_plan plan = do
  guard
      (not (is_empty plan.tasks)
        && leb (length plan.tasks) 50
        && length_within 1 4_000 plan.rationale)
      field_out_of_bounds
  (elim (find_bad_dependency (length plan.tasks) 0 plan.tasks) [ none ↦ ok tt | some e ↦ err e ])
  reject_cycles (length plan.tasks) [] (positioned 0 plan.tasks)
  ok plan

unfoldable pub collects_evidence : ResearchPlan → Bool
collects_evidence plan = any (λ (t : PlannedTask). t.assigned_agent == researcher) plan.tasks

pub record EvidenceSubmission : Type 0 where
  pub records : List EvidenceRecordCreate
  pub unmet_requirements : List String

-- `len(set(texts)) != len(texts)`
unfoldable pub has_repeats : List String → Bool
has_repeats [] = false
has_repeats (t ∷ ts) = elem t ts || has_repeats ts

-- The bounds, and `records_must_not_repeat_the_same_excerpt`.
unfoldable pub check_submission : EvidenceSubmission → Result ContractError EvidenceSubmission
check_submission s = do
  guard
      (not (is_empty s.records)
        && leb (length s.records) 100
        && leb (length s.unmet_requirements) 20
        && all_texts s.unmet_requirements)
      field_out_of_bounds
  refuse_if (has_repeats (map (λ (r : EvidenceRecordCreate). r.content_hash) s.records))
      repeated_excerpt
  ok s

unfoldable pub is_complete : EvidenceSubmission → Bool
is_complete s = is_empty s.unmet_requirements

pub record Calculation : Type 0 where
  pub id : ℕ
  pub description : String
  pub expression : String
  pub result : String
  pub input_evidence_ids : List ℕ

pub record AnalysisResult : Type 0 where
  pub findings : List ProposedFinding
  pub calculations : List Calculation

-- The bounds, and `cited_calculations_must_be_present`.
unfoldable pub check_analysis_contract : AnalysisResult → Result ContractError AnalysisResult
check_analysis_contract a = do
  guard (not (is_empty a.findings) && leb (length a.findings) 100 && leb (length a.calculations) 50)
      field_out_of_bounds
  let available = map (λ (c : Calculation). c.id) a.calculations
  guard (all (λ (f : ProposedFinding). all (λ i. elem i available) f.calculation_ids) a.findings)
      missing_calculation
  ok a

pub record CriticReview : Type 0 where
  pub verdicts : List ClaimVerdict
  pub coverage_gaps : List String

pub record ReportSection : Type 0 where
  pub heading : String
  pub body : String

pub record ResearchReport : Type 0 where
  pub title : String
  pub sections : List ReportSection
  pub is_partial : Bool
  pub omitted_because : List String

-- `a_partial_report_must_say_what_is_missing`, behind the bounds and the check of each section.
unfoldable pub check_report_contract :
    (uncited : String → List String) → ResearchReport → Result ContractError ResearchReport
check_report_contract uncited r = do
  guard
      (length_within 1 4_000 r.title
        && not (is_empty r.sections)
        && leb (length r.sections) 50
        && leb (length r.omitted_because) 20
        && all_texts r.omitted_because)
      field_out_of_bounds
  guard (all (λ (s : ReportSection). is_empty (uncited s.body)) r.sections) uncited_facts
  refuse_if (r.is_partial && is_empty r.omitted_because) unlabelled_partial
  refuse_if (not r.is_partial && not (is_empty r.omitted_because)) omissions_of_complete
  ok r

module _ (citations : String → List ℕ) where
  cited_in : List ReportSection → List ℕ
  cited_in [] = []
  cited_in (s ∷ rest) = citations s.body ++ cited_in rest

  unfoldable pub cited_evidence_ids : ResearchReport → List ℕ
  unfolding cited_in
  cited_evidence_ids r = cited_in r.sections

  unfoldable pub unsupported_citations : ResearchReport → (available : List ℕ) → List ℕ
  unfolding cited_evidence_ids
  unsupported_citations r available = filter (λ i. not (elem i available)) (cited_evidence_ids r)
