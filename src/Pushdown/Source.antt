-- ===== src/Pushdown/Source.antt =====
-- ha_duckdb_pushdown.cc: extract_source_query, which finds the query in the text of the statement.
-- The loop over the text takes fuel, of which the length of the text is enough.
use duckdb_engine.Prelude.{
  ℕ, zero, suc, ◌+◌, ◌-◌, Bool, not, ◌&&◌, ◌||◌, Bytes, [], ◌∷◌, codes, map, Option, none, some,
  length, leb, ◌==◌, if◌then◌else◌,
}
use duckdb_engine.Convert.Types.{same_bytes}
use duckdb_engine.Sql.Region.{outside, comment, quoted, unterminated, is_space, scan_sql_region}
use duckdb_engine.Sql.Forward.{mariadb_query_has_unsafe_quote_escape}

-- isalpha() and isalnum() in the C locale.
abbrev pub is_alpha : ℕ → Bool
is_alpha c = leb 65 c && leb c 90 || leb 97 c && leb c 122

abbrev pub is_alnum : ℕ → Bool
is_alnum c = is_alpha c || leb 48 c && leb c 57

abbrev pub starts_token : ℕ → Bool
starts_token c = is_alpha c || (c == b'_' || leb 0x80 c)

abbrev pub in_token : ℕ → Bool
in_token c = is_alnum c || (c == b'_' || (c == b'$' || leb 0x80 c))

-- The loop behind the first byte of a token: the token's bytes, and what stands behind it.
unfoldable pub token_rest : Bytes → Bytes × Bytes
token_rest [] = ([], [])
token_rest (c ∷ s) =
    let rest = token_rest s in if in_token c then (c ∷ rest.0, rest.1) else ([], c ∷ s)

abbrev pub to_lower : ℕ → ℕ
to_lower c = if leb 65 c && leb c 90 then c + 32 else c

unfoldable pub is_query_token : Bytes → Bool
is_query_token token =
    same_bytes (map to_lower token) (codes "select")
    || same_bytes (map to_lower token) (codes "with")

-- What a round of the loop does: refuse, find the query here, or go on at a depth behind what it
-- took.
pub data SourceStep : Type 0 where
  refuse find : SourceStep
  go_on : ℕ → Bytes → SourceStep

-- A byte that is no space and opens no region.
unfoldable pub plain_step : Bool → ℕ → ℕ → Bytes → SourceStep
plain_step strip_prefix depth c s =
    let top = not strip_prefix && (depth == 0) in
    if c == b'('
    then (if top then refuse else go_on (depth + 1) s)
    else if c == b')'
    then (if depth == 0 then refuse else go_on (depth - 1) s)
    else if starts_token c
    then (let query_token = (depth == 0) && is_query_token (c ∷ (token_rest s).0) in
        if query_token
        then find
        else if not strip_prefix
        then refuse
        else go_on depth (token_rest s).1)
    else if top
    then refuse
    else go_on depth s

unfoldable pub source_step : Bool → Bool → ℕ → ℕ → Bytes → SourceStep
source_step strip_prefix backslash_escapes depth c s =
    let r = scan_sql_region backslash_escapes (c ∷ s) in
    if is_space c then go_on depth s else elim r.region [
      | unterminated ↦ refuse
      | comment ↦ go_on depth r.rest
      | quoted ↦ if not strip_prefix && (depth == 0) then refuse else go_on depth r.rest
      | outside ↦ plain_step strip_prefix depth c s
    ]

-- The text from the query on.
unfoldable pub source_from : ℕ → Bool → Bool → ℕ → Bytes → Option Bytes
source_from fuel strip_prefix escapes depth [] = none
source_from zero strip_prefix escapes depth (c ∷ s) = none
source_from (suc fuel) strip_prefix escapes depth (c ∷ s) =
    elim (source_step strip_prefix escapes depth c s) [
      | refuse ↦ none
      | find ↦ some (c ∷ s)
      | go_on depth' rest ↦ source_from fuel strip_prefix escapes depth' rest
    ]

-- A SELECT is taken whole.
abbrev pub whole : Bool → Bytes → Option Bytes → Option Bytes
whole strip_prefix sql none = none
whole strip_prefix sql (some source) = if strip_prefix then some source else some sql

unfoldable pub extract_source_query : Bool → Bool → Bool → Bytes → Option Bytes
extract_source_query strip_prefix backslash_escapes ansi_quotes sql =
    elim (mariadb_query_has_unsafe_quote_escape backslash_escapes ansi_quotes sql) [
      | none ↦ none
      | some unsafe ↦
          if unsafe
          then none
          else whole strip_prefix sql
              (source_from (length sql) strip_prefix backslash_escapes 0 sql)
    ]
