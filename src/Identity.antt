-- ===== src/Identity.antt =====
-- src/research_platform/identity.py: who is asking.
use secure_mcp_multi_agent_r.Base.{
  ℕ, ◌≡◌, ◌↔◌, Bool, true, false, List, arith, nat_beq, Eq, ◌==◌, String, text_eq, elem, any,
  Option, none, some, Result, ok, refuse_if, ◌>>◌,
}
use secure_mcp_multi_agent_r.Domain.Access.{AccessClass}
use secure_mcp_multi_agent_r.Domain.Tasks.{AgentRole}

pub data Role : Type 0 where
  requester reviewer administrator : Role

abbrev pub human_role_index : Role → ℕ
human_role_index requester = 0
human_role_index reviewer = 1
human_role_index administrator = 2

abbrev pub human_role_beq : Role → Role → Bool
human_role_beq a b = nat_beq (human_role_index a) (human_role_index b)

pub human_role_beq_iff : (a b : Role) → (human_role_beq a b ≡ true) ↔ (a ≡ b)
human_role_beq_iff a b = ground arith

instance abbrev pub human_role_eq : Eq Role
human_role_eq = record { beq = human_role_beq; beq_iff = human_role_beq_iff }

pub record Principal : Type 0 where
  pub tenant_id : String
  pub subject_id : String
  pub roles : List Role
  pub agent_role : Option AgentRole
  pub clearance : AccessClass

pub data PrincipalError : Type 0 where
  no_tenant no_subject : PrincipalError

-- `__post_init__`
unfoldable pub check_principal : Principal → Result PrincipalError Principal
check_principal p = do
  refuse_if (p.tenant_id == "") no_tenant
  refuse_if (p.subject_id == "") no_subject
  ok p

unfoldable pub is_agent : Principal → Bool
is_agent p = elim p.agent_role [ none ↦ false | some role ↦ true ]

-- `bool(self.roles & roles)`
unfoldable pub has_any_role : Principal → List Role → Bool
has_any_role p roles = any (λ role. elem role roles) p.roles

unfoldable pub for_agent : Principal → AgentRole → Result PrincipalError Principal
unfolding check_principal
for_agent p agent_role = check_principal (record p { agent_role = some agent_role })
