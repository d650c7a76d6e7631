-- ===== src/Mcp/SqlQueries.antt =====
-- src/research_platform/mcp/servers/sql_boundary.py. `str.strip`, `str.rstrip`, `str.lower` and the
-- patterns for the tables, the schemas and the limit of a query are parameters.
pub mod Hidden
use secure_mcp_multi_agent_r.Base.{
  ℕ, zero, suc, ◌+◌, Bool, true, false, not, ◌&&◌, ◌||◌, leb, ltb, nat_beq, ◌==◌, nat_eq, text_eq,
  List, [], ◌∷◌, ◌++◌, map, filter, any, elem, is_empty, String, has_prefix, contains, char_count,
  Option, none, some, Result, ok, err, guard, refuse_if, ◌>>=◌, ◌>>◌, if◌then◌else◌,
}
use Prim.Native.Char.{Char, code}
use Prim.Native.String.{◌++◌ as ◌<>◌}

abbrev pub max_query_length : ℕ
max_query_length = 8_000

abbrev pub default_row_limit : ℕ
default_row_limit = 1_000

-- `FORBIDDEN_KEYWORDS`
abbrev pub forbidden_keywords : List String
forbidden_keywords =
    "alter" ∷ "analyze" ∷ "call" ∷ "comment" ∷ "copy" ∷ "create" ∷ "delete" ∷ "do" ∷ "drop"
    ∷ "execute" ∷ "explain" ∷ "grant" ∷ "insert" ∷ "listen" ∷ "lock" ∷ "merge" ∷ "notify"
    ∷ "prepare" ∷ "reassign" ∷ "refresh" ∷ "reindex" ∷ "reset" ∷ "revoke" ∷ "security" ∷ "set"
    ∷ "truncate" ∷ "update" ∷ "vacuum" ∷ []

-- `FORBIDDEN_FUNCTIONS`
abbrev pub forbidden_functions : List String
forbidden_functions =
    "dblink" ∷ "lo_export" ∷ "lo_import" ∷ "pg_read_binary_file" ∷ "pg_read_file" ∷ "pg_reload_conf"
    ∷ "pg_sleep" ∷ "pg_terminate_backend" ∷ []

abbrev pub is_char : ℕ → Char → Bool
is_char wanted c = nat_beq (code c) wanted

abbrev pub is_newline : Char → Bool
is_newline c = is_char 10 c

abbrev pub is_quote : Char → Bool
is_quote c = is_char b'\'' c

-- `LINE_COMMENT.sub(" ", sql)`, inside a comment or not.
unfoldable pub without_line_comments : (inside : Bool) → String → String
without_line_comments inside String.[] = ""
without_line_comments true (String.◌∷◌ c s) =
    let outside = String.◌∷◌ c (without_line_comments false s) in
    let further = without_line_comments true s in if is_newline c then outside else further
without_line_comments false (String.◌∷◌ c s) =
    let commented = String.◌∷◌ " " (without_line_comments true s) in
    let further = String.◌∷◌ c (without_line_comments false s) in
    if is_char b'-' c && has_prefix s "-" then commented else further

-- Where the scan for block comments stands: outside, behind the slash that opens one, inside, or
-- behind the star that closes one.
pub data BlockMode : Type 0 where
  outside opening inside closing : BlockMode

-- `BLOCK_COMMENT.sub(" ", sql)`: a comment that nothing closes is left as it is.
unfoldable pub without_block_comments : BlockMode → String → String
without_block_comments mode String.[] = ""
without_block_comments outside (String.◌∷◌ c s) =
    let commented = String.◌∷◌ " " (without_block_comments opening s) in
    let further = String.◌∷◌ c (without_block_comments outside s) in
    if is_char b'/' c && has_prefix s "*" && is_closed s then commented else further
  where
    is_closed : String → Bool
    is_closed String.[] = false
    is_closed (String.◌∷◌ d rest) = contains rest "*/"
without_block_comments opening (String.◌∷◌ c s) = without_block_comments inside s
without_block_comments inside (String.◌∷◌ c s) =
    let closed = without_block_comments closing s in
    let further = without_block_comments inside s in
    if is_char b'*' c && has_prefix s "/" then closed else further
without_block_comments closing (String.◌∷◌ c s) = without_block_comments outside s

-- How many characters behind an opening quote a literal takes, its closing quote included, if it is
-- closed. A doubled quote continues the literal, unless nothing closes it then.
unfoldable pub literal_length : (doubled : Bool) → String → Option ℕ
literal_length doubled String.[] = none
literal_length true (String.◌∷◌ c s) = elim (literal_length false s) [
  | none ↦ none
  | some n ↦ some (suc n)
]
literal_length false (String.◌∷◌ c s) =
    let further : Option ℕ = elim (literal_length false s) [
      | none ↦ none
      | some n ↦ some (suc n)
    ] in
    let paired : Option ℕ = elim (literal_length true s) [
      | none ↦ some 1
      | some n ↦ some (suc n)
    ] in
    if is_quote c then if has_prefix s "'" then paired else some 1 else further

-- `STRING_LITERAL.sub("''", sql)`; `skip` characters of a literal are left to pass over.
unfoldable pub without_literals : (skip : ℕ) → String → String
unfolding literal_length
without_literals skip String.[] = ""
without_literals (suc skip) (String.◌∷◌ c s) = without_literals skip s
without_literals zero (String.◌∷◌ c s) =
    if is_quote c
    then elim (literal_length false s) [
      | none ↦ String.◌∷◌ c (without_literals zero s)
      | some n ↦ "''" <> without_literals n s
    ]
    else String.◌∷◌ c (without_literals zero s)

-- `_strip_comments_and_literals`
unfoldable pub strip_comments_and_literals : String → String
unfolding without_line_comments without_block_comments without_literals
strip_comments_and_literals sql =
    without_literals 0 (without_block_comments outside (without_line_comments false sql))

abbrev pub is_word_start : Char → Bool
is_word_start c = (leb b'a' (code c) && leb (code c) b'z') || is_char b'_' c

abbrev pub is_word_part : Char → Bool
is_word_part c = is_word_start c || (leb b'0' (code c) && leb (code c) b'9')

-- `WORD.findall(lowered)`; `word` is what is read of a word so far.
unfoldable pub words_from : (word : String) → String → List String
words_from word String.[] = if word == "" then [] else word ∷ []
words_from word (String.◌∷◌ c s) =
    let grown = words_from (word <> String.◌∷◌ c "") s in
    let after = words_from "" s in
    if word == ""
    then if is_word_start c then grown else after
    else if is_word_part c
    then grown
    else word ∷ after

all_word_parts : String → Bool
all_word_parts String.[] = true
all_word_parts (String.◌∷◌ c s) = is_word_part c && all_word_parts s

-- `WORD.fullmatch(schema)`
unfoldable pub is_word : String → Bool
unfolding all_word_parts
is_word String.[] = false
is_word (String.◌∷◌ c s) = is_word_start c && all_word_parts s

-- `sql.split(";")`; `part` is what is read of a part so far.
unfoldable pub split_from : (part : String) → String → List String
split_from part String.[] = part ∷ []
split_from part (String.◌∷◌ c s) =
    let next = part ∷ split_from "" s in
    let grown = split_from (part <> String.◌∷◌ c "") s in if is_char b';' c then next else grown

-- `QueryNotAllowed`, by its reason. The names of an error stand in the order of the query, where
-- the source sorts them and drops repetitions.
pub data QueryNotAllowed : Type 0 where
  bad_schema no_rows_admitted empty_query too_long several_statements : QueryNotAllowed
  no_statement not_a_read : QueryNotAllowed
  forbidden_keyword forbidden_function foreign_schema unqualified_table :
      List String → QueryNotAllowed

pub record AnalyticalQuery : Type 0 where
  pub sql : String
  pub schema : String
  pub row_limit : ℕ

-- What is Python's, and what the module's patterns find: the schemas of QUALIFIED_NAME, the tables
-- of UNQUALIFIED_TABLE, the names of CTE_NAME, and the number of LIMIT_CLAUSE; `without_limit` is
-- `LIMIT_CLAUSE.sub('', text).rstrip()`, and `trimmed` drops what `_apply_row_limit` drops at the
-- end.
pub record Patterns : Type 0 where
  pub strip : String → String
  pub trimmed : String → String
  pub lower : String → String
  pub show : ℕ → String
  pub schema_names : String → List String
  pub unqualified_table : String → List String
  pub cte_name : String → List String
  pub limit_clause : String → Option ℕ
  pub without_limit : String → String

module _ (p : Patterns) where
  -- `_split_statements`
  unfoldable pub split_statements : String → List String
  unfolding split_from
  split_statements sql = filter (λ s. not (s == "")) (map p.strip (split_from "" sql))

  -- `_reject_foreign_schemas`
  unfoldable pub reject_foreign_schemas : String → String → Result QueryNotAllowed (Unit {0})
  reject_foreign_schemas statement schema = do
    let foreign =
        filter (λ name. not (name == p.lower schema)) (map p.lower (p.schema_names statement))
    guard (is_empty foreign) (foreign_schema foreign)
    let common = "select" ∷ "lateral" ∷ map p.lower (p.cte_name statement)
    let unqualified =
        filter (λ name. not (elem name common)) (map p.lower (p.unqualified_table statement))
    guard (is_empty unqualified) (unqualified_table unqualified)

  -- `_apply_row_limit`
  unfoldable pub apply_row_limit : (raw inspectable : String) → ℕ → String
  apply_row_limit raw inspectable row_limit = elim (p.limit_clause inspectable) [
    | none ↦ p.trimmed raw <> (" LIMIT " <> p.show row_limit)
    | some n ↦
        if leb n row_limit
        then p.trimmed raw
        else p.without_limit (p.trimmed raw) <> (" LIMIT " <> p.show row_limit)
  ]

  -- The checks of the one statement.
  unfoldable pub check_statement : String → String → Result QueryNotAllowed (Unit {0})
  unfolding words_from reject_foreign_schemas
  check_statement schema statement = do
    let lowered = p.lower statement
    guard (has_prefix lowered "select" || has_prefix lowered "with") not_a_read
    let words = words_from "" lowered
    let forbidden = filter (λ w. elem w words) forbidden_keywords
    guard (is_empty forbidden) (forbidden_keyword forbidden)
    let dangerous = filter (λ w. elem w words) forbidden_functions
    guard (is_empty dangerous) (forbidden_function dangerous)
    reject_foreign_schemas statement schema

  -- The checks that read the query without its comments and literals.
  unfoldable pub check_statements : String → List String → Result QueryNotAllowed (Unit {0})
  unfolding check_statement
  check_statements schema [] = err no_statement
  check_statements schema (statement ∷ []) = check_statement schema statement
  check_statements schema (s ∷ t ∷ rest) = err several_statements

  unfoldable pub parse_analytical_query :
      (sql schema : String) → (row_limit : ℕ) → Result QueryNotAllowed AnalyticalQuery
  unfolding is_word strip_comments_and_literals split_statements check_statements apply_row_limit
  parse_analytical_query sql schema row_limit = do
    guard (is_word schema) bad_schema
    guard (leb 1 row_limit) no_rows_admitted
    let raw = p.strip sql
    refuse_if (raw == "") empty_query
    refuse_if (ltb max_query_length (char_count raw)) too_long
    let inspectable = strip_comments_and_literals raw
    check_statements schema (split_statements inspectable)
    ok record {
      sql = apply_row_limit raw inspectable row_limit;
      schema = schema;
      row_limit = row_limit;
    }
