-- ===== src/Tests/Web.antt =====
-- The theorems on the boundaries of the web and the database server, at small inputs.
use secure_mcp_multi_agent_r.Base.{
  ◌≡◌, refl, true, arith, List, [], ◌∷◌, String, Option, none, some, Result, ok, is_ok, ◌↔◌, ◌==◌,
  text_eq, if◌then◌else◌, char_count, has_prefix,
}
use Prim.Native.String.{◌++◌ as ◌<>◌}
use secure_mcp_multi_agent_r.Mcp.RateLimiter.{Limit}
use secure_mcp_multi_agent_r.Mcp.RateLimiter.Window.{
  Request, granted_times, IsWithinLimit, granted_times-IsWithinLimit,
}
use secure_mcp_multi_agent_r.Mcp.WebSources.{
  UrlParts, SourceError, Address, DomainPolicy, has_suffix, permits_host, host_of, is_unroutable,
  fetchable, normalize_source_url,
}
use secure_mcp_multi_agent_r.Mcp.WebSources.Approved.{IsApproved, normalize_source_url_lem}
use secure_mcp_multi_agent_r.Mcp.SqlQueries.{Patterns, parse_analytical_query}
use secure_mcp_multi_agent_r.Mcp.SqlQueries.Hidden.{one_line, parse_analytical_query-hidden}
use secure_mcp_multi_agent_r.Tests.Data.{same}

abbrev two_each_minute : Limit
two_each_minute = record { limit = 2; window = 60 }

abbrev three_requests : List Request
three_requests =
    record { key = "acme|web"; now = 1; later = 2 }
    ∷ record { key = "acme|web"; now = 3; later = 3 }
    ∷ record { key = "acme|web"; now = 4; later = 5 }
    ∷ []

granted_times-IsWithinLimit_example :
    IsWithinLimit two_each_minute "acme|web"
      (granted_times two_each_minute "acme|web" [] [] three_requests)
granted_times-IsWithinLimit_example =
    granted_times-IsWithinLimit two_each_minute "acme|web" three_requests
      (omega arith, omega arith, (omega arith, omega arith, (omega arith, omega arith, tt)))

-- Every URL is taken for one of this host, with a fragment.
abbrev parts_found : UrlParts
parts_found = record {
  scheme = "https";
  username = none;
  password = none;
  hostname = some "www.example.org";
  port = ok (some 443);
  path = "";
  query = "";
  fragment = "part";
}

abbrev split_url : String → Result SourceError UrlParts
split_url url = ok parts_found

abbrev no_address : String → Option Address
no_address host = none

abbrev one_domain : DomainPolicy
one_domain = record { domains = "example.org" ∷ []; allow_subdomains = true }

normalize_source_url_lem_example :
    (normalize_source_url same same split_url no_address "https://www.example.org#part" one_domain
      ≡ ok "https://www.example.org/")
    ↔ ((parts : UrlParts) × (split_url "https://www.example.org#part" ≡ ok parts)
        × IsApproved same same split_url no_address one_domain parts
        × ("https://www.example.org/"
            ≡ "https://"
              <> host_of same parts
              <> (if parts.path == "" then "/" else parts.path)
              <> (if parts.query == "" then "" else "?" <> parts.query)))
normalize_source_url_lem_example =
    normalize_source_url_lem same same split_url no_address "https://www.example.org#part"
      one_domain "https://www.example.org/"

-- And it is let through.
url_with_fragment :
    normalize_source_url same same split_url no_address "https://www.example.org#part" one_domain
    ≡ ok "https://www.example.org/"
unfolding normalize_source_url permits_host has_suffix fetchable is_unroutable
url_with_fragment = refl

-- No table is looked for: the query that the checks read has none.
abbrev plain_patterns : Patterns
plain_patterns = record {
  strip = λ s. s;
  trimmed = λ s. s;
  lower = λ s. s;
  show = λ n. "1000";
  schema_names = λ s. [];
  unqualified_table = λ s. [];
  cte_name = λ s. [];
  limit_clause = λ s. none;
  without_limit = λ s. s;
}

parse_analytical_query-hidden_example :
    is_ok
      (parse_analytical_query plain_patterns "select '--'; drop table people" "tenant_acme" 1_000)
    ≡ true
unfolding one_line parse_analytical_query char_count has_prefix
parse_analytical_query-hidden_example =
    parse_analytical_query-hidden plain_patterns "select '" "'; drop table people" "tenant_acme"
      1_000 refl refl refl refl refl refl
