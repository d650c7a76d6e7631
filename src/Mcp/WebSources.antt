-- ===== src/Mcp/WebSources.antt =====
-- `DomainPolicy` and `normalize_source_url` of src/research_platform/mcp/servers/web_boundary.py.
-- `urlsplit`, with the `port` that it reads from the address, the text methods and `ip_address` are
-- parameters.
pub mod Approved
use secure_mcp_multi_agent_r.Base.{
  ℕ, Bool, true, false, not, ◌&&◌, ◌||◌, ◌==◌, nat_eq, text_eq, text_beq, List, [], ◌∷◌, any, elem,
  is_empty, contains, String, Option, none, some, Result, ok, err, guard, refuse_if, ◌>>=◌, ◌>>◌,
  if◌then◌else◌,
}
use Prim.Native.String
use Prim.Native.String.{◌++◌ as ◌<>◌}

-- `s.endswith(p)`
unfoldable pub has_suffix : String → String → Bool
has_suffix String.[] p = text_beq "" p
has_suffix (String.◌∷◌ c s) p = text_beq (String.◌∷◌ c s) p || has_suffix s p

abbrev pub blocked_host_suffixes : List String
blocked_host_suffixes =
    ".local" ∷ ".localdomain" ∷ ".internal" ∷ ".intranet" ∷ ".corp" ∷ ".home.arpa" ∷ []

abbrev pub cloud_metadata_hosts : List String
cloud_metadata_hosts =
    "169.254.169.254" ∷ "metadata.google.internal" ∷ "metadata.goog" ∷ "instance-data" ∷ []

pub record DomainPolicy : Type 0 where
  pub domains : List String
  pub allow_subdomains : Bool

pub data SourceError : Type 0 where
  -- A ValueError: of the policy, of `urlsplit`, and of `parts.port`.
  no_domains invalid_domain invalid_url invalid_port : SourceError
  scheme_not_permitted credentials_embedded no_host not_public private_network : SourceError
  not_approved port_not_permitted : SourceError

unfoldable pub permits_host : DomainPolicy → String → Bool
permits_host policy host =
    if elem host policy.domains
    then true
    else if not policy.allow_subdomains
    then false
    else any (λ domain. has_suffix host ("." <> domain)) policy.domains

-- What `urlsplit` finds in a URL.
pub record UrlParts : Type 0 where
  pub scheme : String
  pub username : Option String
  pub password : Option String
  pub hostname : Option String
  pub port : Result SourceError (Option ℕ)
  pub path : String
  pub query : String
  pub fragment : String

-- What `ip_address` says of an address.
pub record Address : Type 0 where
  pub is_private : Bool
  pub is_loopback : Bool
  pub is_link_local : Bool
  pub is_reserved : Bool
  pub is_multicast : Bool
  pub is_unspecified : Bool

-- `_is_unroutable_address`, of what `ip_address` finds.
unfoldable pub is_unroutable : Option Address → Bool
is_unroutable none = false
is_unroutable (some a) =
    a.is_private || a.is_loopback || a.is_link_local || a.is_reserved || a.is_multicast
    || a.is_unspecified

-- `bool(text)` of a text that may be missing.
abbrev pub is_given : Option String → Bool
is_given none = false
is_given (some s) = not (s == "")

abbrev pub text_or_empty : Option String → String
text_or_empty none = ""
text_or_empty (some s) = s

abbrev pub is_other_port : Option ℕ → Bool
is_other_port none = false
is_other_port (some port) = not (port == 443)

abbrev pub is_blocked : String → Bool
is_blocked host = any (λ suffix. has_suffix host suffix) blocked_host_suffixes

module _ (lower : String → String) where
  -- `(parts.hostname or "").lower()`
  abbrev pub host_of : UrlParts → String
  host_of parts = lower (text_or_empty parts.hostname)

  -- The URL that is fetched.
  unfoldable pub fetchable : UrlParts → String
  fetchable parts =
      "https://"
      <> host_of parts
      <> (if parts.path == "" then "/" else parts.path)
      <> (if parts.query == "" then "" else "?" <> parts.query)

module _ (strip lower : String → String) (urlsplit : String → Result SourceError UrlParts)
    (ip_address : String → Option Address) where
  -- `DomainPolicy.__post_init__`
  unfoldable pub check_policy : DomainPolicy → Result SourceError DomainPolicy
  check_policy policy = do
    refuse_if (is_empty policy.domains) no_domains
    refuse_if (any (λ d. (d == "") || not (d == lower (strip d)) || contains d "/") policy.domains)
        invalid_domain
    ok policy

  unfoldable pub normalize_source_url : String → DomainPolicy → Result SourceError String
  unfolding fetchable is_unroutable permits_host
  normalize_source_url url policy = do
    parts ← urlsplit (strip url)
    guard (lower parts.scheme == "https") scheme_not_permitted
    refuse_if (is_given parts.username || is_given parts.password) credentials_embedded
    let host = host_of lower parts
    refuse_if (host == "") no_host
    refuse_if (elem host cloud_metadata_hosts || is_unroutable (ip_address host)) not_public
    refuse_if (is_blocked host) private_network
    guard (permits_host policy host) not_approved
    port ← parts.port
    refuse_if (is_other_port port) port_not_permitted
    ok (fetchable lower parts)
