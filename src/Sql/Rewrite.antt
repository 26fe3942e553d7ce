-- ===== src/Sql/Rewrite.antt =====
-- runtime/duckdb_query.cc: backticks_to_double_quotes, which every statement passes on its way to
-- DuckDB. The loop over the text takes fuel; `Rewrite.Total` shows that the text's length is enough.
pub mod Total
pub mod Identifiers
pub mod Pieces
use duckdb_engine.Prelude.{
  ℕ, zero, suc, Bool, true, false, ◌&&◌, List, [], ◌∷◌, ◌++◌, Option, none, some, Bytes, ◌==◌,
  length, if◌then◌else◌,
}
use duckdb_engine.Sql.Region.{
  RegionType, outside, comment, quoted, unterminated, Scan, backtick, scan_sql_region,
}

-- The inner loop: the bytes behind the opening backtick, up to the closing one.
pub requote : Bytes → Bytes
requote [] = []
requote (d ∷ []) = []
requote (d ∷ e ∷ []) = if d == b'"' then b'"' ∷ d ∷ [] else d ∷ []
requote (d ∷ e ∷ f ∷ s) = elim (d == backtick && e == backtick) [
  | true ↦ backtick ∷ requote (f ∷ s)
  | false ↦ if d == b'"' then b'"' ∷ d ∷ requote (e ∷ f ∷ s) else d ∷ requote (e ∷ f ∷ s)
]

pub requote_region : Bytes → Bytes
requote_region [] = []
requote_region (c ∷ s) = b'"' ∷ (requote s ++ b'"' ∷ [])

-- The output for a region that begins with the byte `c`.
pub render : ℕ → RegionType → Bytes → Bytes
unfolding requote_region
render c quoted text = if c == backtick then requote_region text else text
render c outside text = text
render c comment text = text
render c unterminated text = text

-- One round outside any region copies the byte.
abbrev pub emit : Option Bytes → Bytes → Option Bytes
emit none out = none
emit (some t) out = some (out ++ t)

pub rewrite_from : ℕ → Bytes → Option Bytes
unfolding render
rewrite_from fuel [] = some []
rewrite_from zero (c ∷ s) = none
rewrite_from (suc fuel) (c ∷ s) =
    let r = scan_sql_region false (c ∷ s) in
    elim r.region [
      | outside ↦ emit (rewrite_from fuel s) (c ∷ [])
      | other ↦ emit (rewrite_from fuel r.rest) (render c other r.text)
    ]

pub backticks_to_double_quotes : Bytes → Option Bytes
backticks_to_double_quotes sql = rewrite_from (length sql) sql
