-- ===== src/Mcp/Registry.antt =====
-- src/research_platform/mcp/registry.py: the catalogue, and what discovery reveals of it.
pub mod Discovery
pub mod Hiding
use secure_mcp_multi_agent_r.Base.{
  ℕ, Bool, true, false, not, ◌&&◌, ◌||◌, List, [], ◌∷◌, ◌++◌, map, leb, ltb, String, ◌==◌, text_eq,
  nat_eq, text_pair_eq, elem, filter, is_empty, length, length_within, sort, Dict, get, put,
  has_key, values, Option, none, some, Result, ok, err, guard, refuse_if, ◌>>=◌, ◌>>◌,
  if◌then◌else◌,
}
use Prim.Native.Char.{code}
use Prim.Native.String
use Prim.Native.String.{compare, ◌++◌ as ◌<>◌}
use text.Mathlib.Text.{is_le}
use secure_mcp_multi_agent_r.Domain.Access.{AccessClass, clearance_covers}
use secure_mcp_multi_agent_r.Domain.Tasks.{AgentRole, planner, role_eq}
use secure_mcp_multi_agent_r.Identity.{Role, Principal, has_any_role}

abbrev pub all_tenants : String
all_tenants = "*"

-- `METADATA_ONLY_AGENTS`
abbrev pub metadata_only_agents : List AgentRole
metadata_only_agents = planner ∷ []

pub data CapabilityKind : Type 0 where
  tool resource prompt : CapabilityKind

pub record Capability : Type 0 where
  pub server : String
  pub name : String
  pub kind : CapabilityKind
  pub description : String
  pub required_roles : List Role
  pub allowed_agents : List AgentRole
  pub max_access_class : AccessClass
  pub side_effecting : Bool
  pub requires_approval : Bool
  pub tenant_scope : List String
  pub max_result_bytes : ℕ
  pub timeout_ms : ℕ

pub data RegistryError : Type 0 where
  capability_not_found : (server name : String) → RegistryError
  duplicate_capability : (server name : String) → RegistryError
  field_out_of_bounds side_effect_without_approval no_tenant_scope : RegistryError

name_start : ℕ → Bool
name_start c = (leb b'a' c && leb c b'z') || (leb b'0' c && leb c b'9')

name_rest : String → Bool
unfolding name_start
name_rest String.[] = true
name_rest (String.◌∷◌ c s) =
    (name_start (code c) || (code c == b'_') || (code c == b'-')) && name_rest s

-- `Name`: 1 to 100 characters that match `^[a-z0-9][a-z0-9_-]*$`.
unfoldable pub is_name : String → Bool
unfolding name_rest name_start
is_name String.[] = false
is_name (String.◌∷◌ c s) =
    length_within 1 100 (String.◌∷◌ c s) && name_start (code c) && name_rest s

unfoldable pub capability_in_bounds : Capability → Bool
capability_in_bounds c =
    is_name c.server
    && is_name c.name
    && length_within 1 500 c.description
    && leb 1_024 c.max_result_bytes
    && leb c.max_result_bytes 8_388_608
    && ltb 0 c.timeout_ms
    && leb c.timeout_ms 300_000

-- The bounds and the validator `side_effecting_capabilities_need_approval`.
unfoldable pub check_capability : Capability → Result RegistryError Capability
check_capability c = do
  guard (capability_in_bounds c) field_out_of_bounds
  refuse_if (c.side_effecting && not c.requires_approval) side_effect_without_approval
  refuse_if (is_empty c.tenant_scope) no_tenant_scope
  ok c

abbrev pub qualified_name : Capability → String
qualified_name c = c.server <> "." <> c.name

unfoldable pub is_available_to_tenant : Capability → String → Bool
is_available_to_tenant c tenant_id =
    elem all_tenants c.tenant_scope || elem tenant_id c.tenant_scope

unfoldable pub is_visible_to : Capability → Principal → Bool
is_visible_to c p =
    if not (is_available_to_tenant c p.tenant_id)
    then false
    else if not (clearance_covers p.clearance c.max_access_class)
    then false
    else (elim p.agent_role [
      | some role ↦ elem role c.allowed_agents || elem role metadata_only_agents
      | none ↦ has_any_role p c.required_roles
    ])

unfoldable pub is_executable_by : Capability → Principal → Bool
is_executable_by c p = if not (is_visible_to c p) then false else (elim p.agent_role [
  | some role ↦ elem role c.allowed_agents
  | none ↦ has_any_role p c.required_roles
])

-- `CapabilityRegistry`: the dictionary behind it.
abbrev pub Registry : Type 0
Registry = Dict (String × String) Capability

unfoldable pub register : Registry → Capability → Result RegistryError Registry
register r c =
    if has_key r (c.server, c.name)
    then err (duplicate_capability c.server c.name)
    else ok (put r (c.server, c.name) c)

-- `CapabilityRegistry.__init__`
unfoldable pub register_all : Registry → List Capability → Result RegistryError Registry
register_all r [] = ok r
register_all r (c ∷ cs) = register r c >>= λ r'. register_all r' cs

unfoldable pub find : Registry → String → String → Result RegistryError Capability
find r server name = elim (get r (server, name)) [
  | some c ↦ ok c
  | none ↦ err (capability_not_found server name)
]

unfoldable pub resolve_for :
    Registry → Principal → String → String → Result RegistryError Capability
unfolding find
resolve_for r p server name = find r server name >>= λ c.
    if is_visible_to c p then ok c else err (capability_not_found server name)

abbrev pub by_qualified_name : Capability → Capability → Bool
by_qualified_name c d = is_le (compare (qualified_name c) (qualified_name d))

unfoldable pub discover : Registry → Principal → List Capability
discover r p = sort by_qualified_name (filter (λ c. is_visible_to c p) (values r))

-- The set that `servers` builds, one entry for each name.
without_repeats : List String → List String
without_repeats [] = []
without_repeats (s ∷ rest) =
    let kept = without_repeats rest in if elem s kept then kept else s ∷ kept

unfoldable pub servers : Registry → List String
unfolding without_repeats
servers r = sort (λ s t. is_le (compare s t)) (without_repeats (map (λ c. c.server) (values r)))
