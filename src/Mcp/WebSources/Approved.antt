-- ===== src/Mcp/WebSources/Approved.antt =====
-- About `normalize_source_url` of src/research_platform/mcp/servers/web_boundary.py.
use secure_mcp_multi_agent_r.Base.{
  ℕ, ◌≡◌, refl, ap, sym, ◌∙◌, nil-append, cons-append, ◌≢◌, ◌↔◌, ◌⊎◌, inl, inr, Bool, Bool-cases,
  true, false, arith, String, ◌==◌, elem, any, not, List, [], ◌∷◌, Option, none, some, text_eq,
  nat_eq, nat_beq_iff, Result, ok, err, Result-cases, if◌then◌else◌,
}
use Prim.Native.String.{◌++◌ as ◌<>◌}
use secure_mcp_multi_agent_r.Mcp.WebSources.{
  UrlParts, SourceError, Address, DomainPolicy, is_given, is_other_port, is_unroutable, has_suffix,
  permits_host, cloud_metadata_hosts, blocked_host_suffixes, host_of, is_blocked, fetchable,
  normalize_source_url,
}

-- The text ends with the other one.
abbrev pub EndsWith : String → String → Type 0
EndsWith s p = (before : String) × (s ≡ before <> p)

has_suffix-EndsWith : (s p : String) → has_suffix s p ≡ true → EndsWith s p
unfolding has_suffix
has_suffix-EndsWith String.[] p h = ("", (text_eq.beq_iff "" p).0 h ∙ sym (nil-append p))
has_suffix-EndsWith (String.◌∷◌ c s) p h = elim (Bool-cases (String.◌∷◌ c s == p)) [
  | inl e ↦ ("", (text_eq.beq_iff (String.◌∷◌ c s) p).0 e ∙ sym (nil-append p))
  | inr e ↦
      let (before, f) = has_suffix-EndsWith s p (rw e at h) in
      (String.◌∷◌ c before, ap (λ t. String.◌∷◌ c t) f ∙ sym (cons-append c before p))
]

has_suffix_self : (p : String) → has_suffix p p ≡ true
unfolding has_suffix
has_suffix_self String.[] = refl
has_suffix_self (String.◌∷◌ c s) = ground (arith, text_eq.beq_iff (String.◌∷◌ c s) (String.◌∷◌ c s))

has_suffix-append : (before p : String) → has_suffix (before <> p) p ≡ true
unfolding has_suffix
has_suffix-append String.[] p = rw (nil-append p) (has_suffix_self p)
has_suffix-append (String.◌∷◌ c s) p =
    rw (cons-append c s p) (ground (arith, has_suffix-append s p))

has_suffix_iff : (s p : String) → (has_suffix s p ≡ true) ↔ EndsWith s p
has_suffix_iff s p = (has_suffix-EndsWith s p, λ (before, e). rw e (has_suffix-append before p))

-- The host has none of these endings.
abbrev pub HasNone : String → List String → Type 0
HasNone host [] = Unit
HasNone host (p ∷ ps) = (¬ EndsWith host p) × HasNone host ps

HasNone-iff :
    (host : String) (ps : List String) → (any (λ p. has_suffix host p) ps ≡ false) ↔ HasNone host ps
HasNone-iff host [] = ground arith
HasNone-iff host (p ∷ ps) = ground (arith, HasNone-iff host ps, has_suffix_iff host p)

-- The host is one of the domains, or, where the policy allows that, a host below one of them.
abbrev pub IsBelow : Bool → String → List String → Type 0
IsBelow subdomains host [] = ⊥
IsBelow subdomains host (d ∷ ds) =
    ((host ≡ d) ⊎ ((subdomains ≡ true) × EndsWith host ("." <> d))) ⊎ IsBelow subdomains host ds

permits_host_iff :
    (subdomains : Bool) (host : String) (ds : List String)
    → (permits_host (record { domains = ds; allow_subdomains = subdomains }) host ≡ true)
      ↔ IsBelow subdomains host ds
unfolding permits_host
permits_host_iff subdomains host [] = ground arith
permits_host_iff subdomains host (d ∷ ds) = ground (
  arith,
  permits_host_iff subdomains host ds,
  has_suffix_iff host ("." <> d),
  text_eq.beq_iff host d,
  text_eq.beq_iff d host,
)

-- A part of a URL that is missing, or empty.
abbrev pub IsMissing : Option String → Type 0
IsMissing part = (part ≡ none) ⊎ (part ≡ some "")

IsMissing-iff : (part : Option String) → (is_given part ≡ false) ↔ IsMissing part
IsMissing-iff none = ground arith
IsMissing-iff (some s) = ground (arith, text_eq.beq_iff s "")

-- No port is given, or the port of https.
abbrev pub IsDefaultPort : Result SourceError (Option ℕ) → Type 0
IsDefaultPort port = (port ≡ ok none) ⊎ (port ≡ ok (some 443))

true_not_false : true ≢ false
true_not_false e = ground arith

abbrev default_port : Result SourceError (Option ℕ) → Bool
default_port (ok port) = not (is_other_port port)
default_port (err e) = false

IsDefaultPort-iff :
    (port : Result SourceError (Option ℕ)) → (default_port port ≡ true) ↔ IsDefaultPort port
IsDefaultPort-iff (ok none) = ground arith
IsDefaultPort-iff (ok (some n)) = ground (arith, nat_beq_iff n 443)
IsDefaultPort-iff (err e) = ground arith

module _ (strip lower : String → String) (urlsplit : String → Result SourceError UrlParts)
    (ip_address : String → Option Address) where
  -- A URL may be fetched: it is an https URL without credentials, at the default port, of a public
  -- host that the policy permits. Nothing is asked of its fragment.
  abbrev pub IsApproved : DomainPolicy → UrlParts → Type 0
  IsApproved policy parts =
      (lower parts.scheme ≡ "https")
      × IsMissing parts.username
      × IsMissing parts.password
      × IsDefaultPort parts.port
      × (host_of lower parts ≢ "")
      × (elem (host_of lower parts) cloud_metadata_hosts ≡ false)
      × (is_unroutable (ip_address (host_of lower parts)) ≡ false)
      × HasNone (host_of lower parts) blocked_host_suffixes
      × IsBelow policy.allow_subdomains (host_of lower parts) policy.domains

  -- The tests that the function makes, all passed.
  Passes : DomainPolicy → UrlParts → Type 0
  Passes policy parts =
      ((lower parts.scheme == "https") ≡ true)
      × (is_given parts.username ≡ false)
      × (is_given parts.password ≡ false)
      × ((host_of lower parts == "") ≡ false)
      × (elem (host_of lower parts) cloud_metadata_hosts ≡ false)
      × (is_unroutable (ip_address (host_of lower parts)) ≡ false)
      × (is_blocked (host_of lower parts) ≡ false)
      × (permits_host policy (host_of lower parts) ≡ true)
      × (default_port parts.port ≡ true)

  Passes-iff :
      (policy : DomainPolicy) (parts : UrlParts) → Passes policy parts ↔ IsApproved policy parts
  unfolding Passes
  Passes-iff policy parts =
      let host = host_of lower parts in
      let web = text_eq.beq_iff (lower parts.scheme) "https" in
      let user = IsMissing-iff parts.username in
      let word = IsMissing-iff parts.password in
      let named = text_eq.beq_iff host "" in
      let apart = HasNone-iff host blocked_host_suffixes in
      let below = permits_host_iff policy.allow_subdomains host policy.domains in
      let port = IsDefaultPort-iff parts.port in
      (
        λ (a, b, c, d, m, u, n, l, q). (
          web.0 a,
          user.0 b,
          word.0 c,
          port.0 q,
          λ same. true_not_false (sym (named.1 same) ∙ d),
          m,
          u,
          apart.0 n,
          below.0 l,
        ),
        λ (a, b, c, q, d, m, u, n, l). (
          web.1 a,
          user.1 b,
          word.1 c,
          elim (Bool-cases (host == "")) [ inl t ↦ absurd (d (named.0 t)) | inr t ↦ t ],
          m,
          u,
          apart.1 n,
          below.1 l,
          port.1 q,
        ),
      )

  module _ (url : String) (policy : DomainPolicy) (parts : UrlParts) (out : String)
      (split : urlsplit (strip url) ≡ ok parts) where
    Passes-normalize :
        normalize_source_url strip lower urlsplit ip_address url policy ≡ ok out
        → Passes policy parts × (out ≡ fetchable lower parts)
    unfolding normalize_source_url Passes
    Passes-normalize h = (
      (
        ground arith,
        ground arith,
        ground arith,
        ground arith,
        ground arith,
        ground arith,
        ground arith,
        ground arith,
        ground arith,
      ),
      ground arith,
    )

    normalize-Passes :
        Passes policy parts
        → normalize_source_url strip lower urlsplit ip_address url policy
          ≡ ok (fetchable lower parts)
    unfolding normalize_source_url Passes
    normalize-Passes (a, b, c, d, m, u, n, l, q) = ground arith

  -- A URL is let through exactly if it can be split, is an https URL without credentials, at the
  -- default port, of a host that is one of the policy's domains or, where the policy allows it,
  -- below one, and that is neither a metadata service, nor an unroutable address, nor ends as the
  -- hosts of private networks do; and what is fetched is then that host's https address with the
  -- URL's path and query. The fragment is not looked at: a URL that has one is let through without
  -- it.
  pub normalize_source_url_lem :
      (url : String) (policy : DomainPolicy) (out : String)
      → (normalize_source_url strip lower urlsplit ip_address url policy ≡ ok out) ↔ (
          (parts : UrlParts) × (urlsplit (strip url) ≡ ok parts)
          × IsApproved policy parts
          × (out
              ≡ "https://"
                <> host_of lower parts
                <> (if parts.path == "" then "/" else parts.path)
                <> (if parts.query == "" then "" else "?" <> parts.query)))
  unfolding normalize_source_url fetchable
  normalize_source_url_lem url policy out = (
    λ h. elim (Result-cases (urlsplit (strip url))) [
      | inr (e, split) ↦ absurd (ground arith)
      | inl (parts, split) ↦
          let (fine, same) = Passes-normalize url policy parts out split h in
          (parts, split, (Passes-iff policy parts).0 fine, same)
    ],
    λ (parts, split, fine, same).
        rw same (normalize-Passes url policy parts out split ((Passes-iff policy parts).1 fine)),
  )
