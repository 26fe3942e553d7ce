-- ===== src/Sql/Forward.antt =====
-- runtime/duckdb_query.cc: mariadb_query_has_unsafe_quote_escape, the check of SQL that MariaDB has
-- parsed and DuckDB is about to parse again. The session's sql_mode enters as two arguments.
pub mod Agreement
pub mod Pieces
pub mod Differing
pub mod Refusal
pub mod Decides
use duckdb_engine.Prelude.{
  ℕ, zero, suc, Bool, true, false, not, ◌&&◌, ◌||◌, List, [], ◌∷◌, Option, none, some, Bytes, ◌==◌,
  length, if◌then◌else◌,
}
use duckdb_engine.Sql.Region.{
  RegionType, outside, comment, quoted, unterminated, Scan, scan_sql_region,
}

-- A byte that opens a string literal in MariaDB, where ANSI_QUOTES makes `"` an identifier quote.
abbrev pub is_literal : Bool → ℕ → Bool
is_literal ansi_quotes c = c == b'\'' || c == b'"' && not ansi_quotes

pub same_region : RegionType → RegionType → Bool
same_region outside outside = true
same_region comment comment = true
same_region quoted quoted = true
same_region unterminated unterminated = true
same_region _ _ = false

-- What a round of the loop finds: a statement that is refused, or where to go on.
pub data Verdict : Type 0 where
  unsafe next_byte : Verdict
  go_on : Bytes → Verdict

-- A round of the loop, from the scan `d` without escapes, the scan `m` with them, and whether
-- the byte opens a string literal.
pub compare_scans : Bool → Scan → Scan → Verdict
unfolding same_region
compare_scans literal d m = elim d.region [
  | comment ↦ go_on d.rest
  | other ↦
      if literal
      then (if same_region m.region other && length m.text == length d.text
          then go_on m.rest
          else unsafe)
      else elim other [ quoted ↦ go_on d.rest | unterminated ↦ unsafe | _ ↦ next_byte ]
]

pub check_byte : Bool → ℕ → Bytes → Verdict
unfolding compare_scans
check_byte ansi_quotes c s =
    compare_scans (is_literal ansi_quotes c) (scan_sql_region false (c ∷ s))
      (scan_sql_region true (c ∷ s))

pub unsafe_from : ℕ → Bool → Bytes → Option Bool
unsafe_from fuel ansi_quotes [] = some false
unsafe_from zero ansi_quotes (c ∷ s) = none
unsafe_from (suc fuel) ansi_quotes (c ∷ s) = elim (check_byte ansi_quotes c s) [
  | unsafe ↦ some true
  | next_byte ↦ unsafe_from fuel ansi_quotes s
  | go_on rest ↦ unsafe_from fuel ansi_quotes rest
]

pub mariadb_query_has_unsafe_quote_escape : Bool → Bool → Bytes → Option Bool
mariadb_query_has_unsafe_quote_escape backslash_escapes ansi_quotes sql =
    if not backslash_escapes then some false else unsafe_from (length sql) ansi_quotes sql
