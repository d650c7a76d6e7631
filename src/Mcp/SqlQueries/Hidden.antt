-- ===== src/Mcp/SqlQueries/Hidden.antt =====
-- What the checks of src/research_platform/mcp/servers/sql_boundary.py do not read.
use secure_mcp_multi_agent_r.Base.{
  ℕ, ◌≡◌, refl, ap, arith, Bool, true, false, not, ◌&&◌, String, has_prefix, Result, ok, err,
  nil-append, cons-append, leb, ltb, ◌==◌, text_eq, char_count, is_ok, subst, guard, refuse_if,
  ◌>>=◌,
}
use Prim.Native.String.{◌++◌ as ◌<>◌}
use secure_mcp_multi_agent_r.Mcp.SqlQueries.{
  is_newline, without_line_comments, without_block_comments, without_literals, outside,
  strip_comments_and_literals, Patterns, is_word, max_query_length, check_statements,
  split_statements, parse_analytical_query, QueryNotAllowed, AnalyticalQuery, bad_schema,
  no_rows_admitted, empty_query, too_long, apply_row_limit,
}

-- No character of the text ends a line.
unfoldable pub one_line : String → Bool
one_line String.[] = true
one_line (String.◌∷◌ c s) = not (is_newline c) && one_line s

inside_comment : (t : String) → one_line t ≡ true → without_line_comments true t ≡ ""
unfolding one_line without_line_comments
inside_comment String.[] h = refl
inside_comment (String.◌∷◌ c s) h = ground (arith, inside_comment s)

two_dashes : (t : String) → "" <> ("--" <> t) ≡ String.◌∷◌ "-" (String.◌∷◌ "-" t)
two_dashes t = simp (nil-append, cons-append "-" "-" t, cons-append "-" "" t)

has_prefix-one : (s t : String) → has_prefix (s <> ("--" <> t)) "-" ≡ has_prefix (s <> "--") "-"
unfolding has_prefix
has_prefix-one String.[] t = simp (nil-append, cons-append "-" "-" t)
has_prefix-one (String.◌∷◌ c s) t = simp (cons-append c s)

without_line_comments-hidden :
    (inside : Bool) (before t : String)
    → one_line t ≡ true
    → without_line_comments inside (before <> ("--" <> t))
      ≡ without_line_comments inside (before <> "--")
unfolding without_line_comments has_prefix
without_line_comments-hidden true String.[] t h = rw (two_dashes t, inside_comment t h) refl
without_line_comments-hidden false String.[] t h = rw (two_dashes t, inside_comment t h) refl
without_line_comments-hidden true (String.◌∷◌ c s) t h =
    rw
      (
        cons-append c s ("--" <> t),
        cons-append c s "--",
        without_line_comments-hidden true s t h,
        without_line_comments-hidden false s t h,
      )
      refl
without_line_comments-hidden false (String.◌∷◌ c s) t h =
    rw
      (
        cons-append c s ("--" <> t),
        cons-append c s "--",
        has_prefix-one s t,
        without_line_comments-hidden true s t h,
        without_line_comments-hidden false s t h,
      )
      refl

strip_comments_and_literals-hidden :
    (before t : String)
    → one_line t ≡ true
    → strip_comments_and_literals (before <> ("--" <> t))
      ≡ strip_comments_and_literals (before <> "--")
unfolding strip_comments_and_literals
strip_comments_and_literals-hidden before t h =
    ap (λ s. without_literals 0 (without_block_comments outside s))
      (without_line_comments-hidden false before t h)

-- Five checks in a row that let a query through.
all_passed :
    (a b c d : Bool) (checks : Result QueryNotAllowed (Unit {0})) (q : String → AnalyticalQuery)
    (s : String)
    → is_ok (
        guard a bad_schema >>= λ _. guard b no_rows_admitted >>= λ _.
        refuse_if c empty_query >>= λ _. refuse_if d too_long >>= λ _. checks >>= λ _. ok (q s))
      ≡ true
    → (a ≡ true) × (b ≡ true) × (c ≡ false) × (d ≡ false) × (checks ≡ ok tt)
all_passed true true false false (ok _) q s h = (refl, refl, refl, refl, refl)
all_passed true true false false (err e) q s h = ground arith
all_passed true true false true checks q s h = ground arith
all_passed true true true d checks q s h = ground arith
all_passed true false c d checks q s h = ground arith
all_passed false b c d checks q s h = ground arith

module _ (p : Patterns) (sql schema : String) (row_limit : ℕ) (unpadded : p.strip sql ≡ sql) where
  -- What is checked of a query that the stripping leaves as it is.
  abbrev AreMet : Type 0
  AreMet =
      (is_word schema ≡ true)
      × (leb 1 row_limit ≡ true)
      × ((sql == "") ≡ false)
      × (ltb max_query_length (char_count sql) ≡ false)
      × (check_statements p schema (split_statements p (strip_comments_and_literals sql)) ≡ ok tt)

  accepted_query : String → AnalyticalQuery
  accepted_query s = record {
    sql = apply_row_limit p s (strip_comments_and_literals s) row_limit;
    schema = schema;
    row_limit = row_limit;
  }

  met-AreMet : is_ok (parse_analytical_query p sql schema row_limit) ≡ true → AreMet
  unfolding parse_analytical_query accepted_query
  met-AreMet h =
      all_passed (is_word schema) (leb 1 row_limit) (sql == "")
        (ltb max_query_length (char_count sql))
        (check_statements p schema (split_statements p (strip_comments_and_literals sql)))
        accepted_query sql
        (subst
          (λ (s : String).
            is_ok (
              guard (is_word schema) bad_schema >>= λ _.
              guard (leb 1 row_limit) no_rows_admitted >>= λ _.
              refuse_if (s == "") empty_query >>= λ _.
              refuse_if (ltb max_query_length (char_count s)) too_long >>= λ _.
              check_statements p schema (split_statements p (strip_comments_and_literals s))
              >>= λ _. ok (accepted_query s))
            ≡ true)
          unpadded h)

  AreMet-is_ok : AreMet → is_ok (parse_analytical_query p sql schema row_limit) ≡ true
  unfolding parse_analytical_query
  AreMet-is_ok (a, b, c, d, e) = rw (a, b, unpadded, c, d, e) refl

-- Two dashes end what the checks read of a line, wherever they stand: when a query that ends with
-- two dashes is accepted, it is accepted with any text of one line behind them, within the limit of
-- length and with no white space around the query. In a string literal, as behind an opening quote,
-- the database reads what stands there.
pub parse_analytical_query-hidden :
    (p : Patterns) (before t schema : String) (row_limit : ℕ)
    → one_line t ≡ true
    → p.strip (before <> "--") ≡ before <> "--"
    → p.strip (before <> ("--" <> t)) ≡ before <> ("--" <> t)
    → ((before <> ("--" <> t)) == "") ≡ false
    → ltb max_query_length (char_count (before <> ("--" <> t))) ≡ false
    → is_ok (parse_analytical_query p (before <> "--") schema row_limit) ≡ true
    → is_ok (parse_analytical_query p (before <> ("--" <> t)) schema row_limit) ≡ true
parse_analytical_query-hidden p before t schema row_limit h bare unpadded some_text short accepted =
    let (a, b, _, _, e) = met-AreMet p (before <> "--") schema row_limit bare accepted in
    AreMet-is_ok p (before <> ("--" <> t)) schema row_limit unpadded
      (a, b, some_text, short, rw (strip_comments_and_literals-hidden before t h) e)
