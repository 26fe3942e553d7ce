-- ===== src/Sql/Quote.antt =====
-- common/duckdb_types.cc: quote_duckdb_identifier; convertor/dml_convertor.cc:
-- append_quoted_identifier; runtime/fiber_scan.cc: escape_backticks.
pub mod Sequence
pub mod RoundTrip
use duckdb_engine.Prelude.{
  ℕ, Bool, true, false, ◌&&◌, List, [], ◌∷◌, ◌++◌, Bytes, ◌==◌, if◌then◌else◌,
}
use duckdb_engine.Sql.Region.{backtick}

-- Every byte `q` of a text doubled.
unfoldable pub double : ℕ → Bytes → Bytes
double q [] = []
double q (c ∷ s) = if c == q then q ∷ c ∷ double q s else c ∷ double q s

abbrev pub enclose : ℕ → Bytes → Bytes
enclose q s = q ∷ (double q s ++ q ∷ [])

-- An identifier for DuckDB.
unfoldable pub quote_duckdb_identifier : Bytes → Bytes
quote_duckdb_identifier name = enclose b'"' name

-- The loop of append_quoted_identifier, which appends to the statement under construction.
append_doubled : Bytes → Bytes → Bytes
append_doubled target [] = target
append_doubled target (c ∷ s) =
    append_doubled (if c == b'"' then (target ++ b'"' ∷ []) ++ c ∷ [] else target ++ c ∷ []) s

unfoldable pub append_quoted_identifier : Bytes → Bytes → Bytes
unfolding append_doubled
append_quoted_identifier target name = append_doubled (target ++ b'"' ∷ []) name ++ b'"' ∷ []

-- An identifier for MariaDB, without the backticks round it.
unfoldable pub escape_backticks : Bytes → Bytes
escape_backticks [] = []
escape_backticks (c ∷ s) =
    if c == backtick then backtick ∷ backtick ∷ escape_backticks s else c ∷ escape_backticks s

-- What a text with doubled quotes stands for.
unfoldable pub undouble : ℕ → Bytes → Bytes
undouble q [] = []
undouble q (c ∷ []) = c ∷ []
undouble q (c ∷ d ∷ s) = elim (c == q && d == q) [
  | true ↦ c ∷ undouble q s
  | false ↦ c ∷ undouble q (d ∷ s)
]
