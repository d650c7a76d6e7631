-- ===== src/Mcp/Registry/Hiding.antt =====
-- About `discover` and `resolve_for` of src/research_platform/mcp/registry.py: capabilities that a
-- caller may not see.
use secure_mcp_multi_agent_r.Base.{
  ◌≡◌, ap, Bool, false, [], ◌∷◌, arith, String, text_pair_eq, text_pair_beq_iff, filter, sort, get,
  put, get-put, values, none, ok,
}
use secure_mcp_multi_agent_r.Identity.{Principal}
use secure_mcp_multi_agent_r.Mcp.Registry.{
  Capability, Registry, is_visible_to, by_qualified_name, register, resolve_for, discover,
}

-- A key that is not there is written behind all the others.
visible-put :
    (see : Capability → Bool) (r : Registry) (k : String × String) (c : Capability)
    → get r k ≡ none
    → see c ≡ false
    → filter see (values (put r k c)) ≡ filter see (values r)
unfolding get put
visible-put see [] k c h hidden = ground arith
visible-put see ((j, d) ∷ r) k c h hidden = ground (arith, visible-put see r k c)

module _ (r : Registry) (c : Capability) (p : Principal) {r' : Registry}
    (registered : register r c ≡ ok r') (hidden : is_visible_to c p ≡ false) where
  was_missing : get r (c.server, c.name) ≡ none
  unfolding register
  was_missing = ground arith

  now_there : r' ≡ put r (c.server, c.name) c
  unfolding register
  now_there = ground arith

  -- Registering a capability that a caller may not see changes no answer the caller gets: neither
  -- the list that discovery returns, nor the capability or the error for any name it asks for.
  pub hidden_capability_unobservable :
      (server name : String)
      → (discover r' p ≡ discover r p)
        × (resolve_for r' p server name ≡ resolve_for r p server name)
  unfolding discover resolve_for
  hidden_capability_unobservable server name = (
    rw now_there (
        ap (sort by_qualified_name)
          (visible-put (λ d. is_visible_to d p) r (c.server, c.name) c was_missing hidden)),
    rw now_there (
        ground (
          arith,
          get-put r (c.server, c.name) (server, name) c,
          text_pair_beq_iff (c.server, c.name) (server, name),
          was_missing,
          hidden,
        )),
  )
