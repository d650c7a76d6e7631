-- ===== src/Domain/Tasks.antt =====
-- src/research_platform/domain/tasks.py: the life of one research task, and the order of several.
pub mod Lifecycle
pub mod Rounds
pub mod Order
pub mod Permutation
pub mod Completeness
use secure_mcp_multi_agent_r.Base.{
  ℕ, zero, suc, ◌+◌, ◌≡◌, ◌↔◌, Bool, true, false, not, List, [], ◌∷◌, ◌++◌, map, arith, nat_beq,
  leb, Eq, nat_eq, ◌==◌, String, elem, filter, all, any, is_empty, length, sort, Option, none, some,
  Result, ok, err, guard, refuse_if, ◌>>=◌, ◌>>◌, if◌then◌else◌, ◌&&◌, length_within,
}

pub data AgentRole : Type 0 where
  planner researcher analyst critic reporter : AgentRole

abbrev pub role_index : AgentRole → ℕ
role_index planner = 0
role_index researcher = 1
role_index analyst = 2
role_index critic = 3
role_index reporter = 4

abbrev pub role_beq : AgentRole → AgentRole → Bool
role_beq a b = nat_beq (role_index a) (role_index b)

pub role_beq_iff : (a b : AgentRole) → (role_beq a b ≡ true) ↔ (a ≡ b)
role_beq_iff a b = ground arith

instance abbrev pub role_eq : Eq AgentRole
role_eq = record { beq = role_beq; beq_iff = role_beq_iff }

pub data TaskState : Type 0 where
  pending blocked running completed failed : TaskState

abbrev pub state_index : TaskState → ℕ
state_index pending = 0
state_index blocked = 1
state_index running = 2
state_index completed = 3
state_index failed = 4

abbrev pub state_beq : TaskState → TaskState → Bool
state_beq a b = nat_beq (state_index a) (state_index b)

pub state_beq_iff : (a b : TaskState) → (state_beq a b ≡ true) ↔ (a ≡ b)
state_beq_iff a b = ground arith

instance abbrev pub state_eq : Eq TaskState
state_eq = record { beq = state_beq; beq_iff = state_beq_iff }

unfoldable pub allowed_task_transitions : TaskState → List TaskState
allowed_task_transitions pending = blocked ∷ running ∷ failed ∷ []
allowed_task_transitions blocked = pending ∷ failed ∷ []
allowed_task_transitions running = completed ∷ pending ∷ failed ∷ []
allowed_task_transitions completed = []
allowed_task_transitions failed = []

-- The exceptions of the module. `out_of_fuel` is the model's own.
pub data TaskError : Type 0 where
  invalid_task_transition : (current target : TaskState) → TaskError
  retry_budget_exhausted : (task_id max_retries : ℕ) → TaskError
  depends_on_itself field_out_of_bounds : TaskError
  unknown_dependencies : (task_id : ℕ) (missing : List ℕ) → TaskError
  dependency_cycle : TaskError
  out_of_fuel : TaskError

pub record ResearchTask : Type 0 where
  pub id : ℕ
  pub job_id : ℕ
  pub tenant_id : String
  pub objective : String
  pub assigned_agent : AgentRole
  pub dependencies : List ℕ
  pub evidence_requirements : List String
  pub source_restrictions : List String
  pub state : TaskState
  pub retry_count : ℕ
  pub max_retries : ℕ
  pub created_at : ℕ
  pub updated_at : ℕ

abbrev texts_within : (most : ℕ) → List String → Bool
texts_within most texts = leb (length texts) most && all (λ t. length_within 1 4_000 t) texts

-- The bounds of the fields.
unfoldable pub fields_in_bounds : ResearchTask → Bool
fields_in_bounds task =
    length_within 1 100 task.tenant_id
    && length_within 1 4_000 task.objective
    && leb (length task.dependencies) 50
    && texts_within 50 task.evidence_requirements
    && texts_within 50 task.source_restrictions
    && leb task.retry_count 100
    && leb task.max_retries 10

-- What building a task checks: the bounds, and `task_must_not_depend_on_itself`.
unfoldable pub check_task : ResearchTask → Result TaskError ResearchTask
unfolding fields_in_bounds
check_task task = do
  guard (fields_in_bounds task) field_out_of_bounds
  refuse_if (elem task.id task.dependencies) depends_on_itself
  ok task

unfoldable pub transition_to : ResearchTask → TaskState → ℕ → Result TaskError ResearchTask
unfolding allowed_task_transitions
transition_to task target now =
    guard (elem target (allowed_task_transitions task.state))
      (invalid_task_transition task.state target)
    >> ok (record task { state = target; updated_at = now })

unfoldable pub retry : ResearchTask → ℕ → Result TaskError ResearchTask
unfolding transition_to
retry task now =
    if leb task.max_retries task.retry_count
    then err (retry_budget_exhausted task.id task.max_retries)
    else do
      retried ← transition_to task pending now
      ok (record retried { retry_count = task.retry_count + 1 })

abbrev pub ids : List ResearchTask → List ℕ
ids tasks = map (λ t. t.id) tasks

-- The first loop: a task that depends on an identifier no task has.
unfoldable pub find_dangling : List ℕ → List ResearchTask → Option TaskError
find_dangling known [] = none
find_dangling known (task ∷ rest) =
    let missing = filter (λ d. not (elem d known)) task.dependencies in
    if is_empty missing
    then find_dangling known rest
    else some (unknown_dependencies task.id missing)

-- `placed.issuperset(task.dependencies)`
unfoldable pub is_ready : List ℕ → ResearchTask → Bool
is_ready placed task = all (λ d. elem d placed) task.dependencies

abbrev pub older_first : ResearchTask → ResearchTask → Bool
older_first a b = leb a.created_at b.created_at

-- The `while remaining` loop, on fuel.
unfoldable pub rounds :
    ℕ → List ResearchTask → List ℕ → List ResearchTask → Result TaskError (List ResearchTask)
rounds fuel ordered placed [] = ok ordered
rounds zero ordered placed (t ∷ ts) = err out_of_fuel
rounds (suc fuel) ordered placed (t ∷ ts) =
    let ready = filter (is_ready placed) (t ∷ ts) in
    let placed' = placed ++ ids ready in
    let rest =
      rounds fuel (ordered ++ sort older_first ready) placed'
        (filter (λ task. not (elem task.id placed')) (t ∷ ts)) in
    if is_empty ready then err dependency_cycle else rest

unfoldable pub resolve_execution_order : List ResearchTask → Result TaskError (List ResearchTask)
resolve_execution_order tasks = elim (find_dangling (ids tasks) tasks) [
  | some e ↦ err e
  | none ↦ rounds (length tasks) [] [] tasks
]
