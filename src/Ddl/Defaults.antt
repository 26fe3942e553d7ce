-- ===== src/Ddl/Defaults.antt =====
-- The defaults of columns: get_default_expr_from_vcol_defs, has_mariadb_sequence_func,
-- get_expr_default_text and get_field_default_for_duckdb of convertor/ddl_convertor.cc. `none` is a
-- read behind the end of the blob.
pub mod Blob
use duckdb_engine.Prelude.{
  ℕ, zero, suc, ◌+◌, ◌*◌, Bool, true, false, not, ◌&&◌, ◌||◌, [], ◌∷◌, ◌++◌, Bytes, codes, length,
  Option, none, some, ltb, leb, ◌==◌, if◌then◌else◌,
}
use duckdb_engine.Sql.Quote.{double}
use duckdb_engine.Convert.Fields.{FieldType, type_bit}
use duckdb_engine.Convert.Numbers.{upper}
use duckdb_engine.Convert.Types.{same_bytes}
use duckdb_engine.Convert.Values.{hex_bytes}
use duckdb_engine.Functions.Texts.{take, drop}
use duckdb_engine.Ddl.Columns.{Column}

-- std::string(pos, length)
unfoldable pub read_string : ℕ → Bytes → Option Bytes
read_string n s = if leb n (length s) then some (take n s) else none

-- The loop over the entries. An entry has six bytes at least, so the size is fuel enough.
unfoldable pub default_expr_from : ℕ → Bytes → ℕ → Option Bytes
unfolding read_string
default_expr_from fuel [] target = some []
default_expr_from zero (c ∷ s) target = none
default_expr_from (suc fuel) (type ∷ f0 ∷ f1 ∷ e0 ∷ e1 ∷ name_len ∷ rest) target =
    let pos = drop name_len rest in
    let expr_len = e0 + 256 * e1 in
    let next = default_expr_from fuel (drop expr_len pos) target in
    if (type == 2) && (f0 + 256 * f1 == target) then read_string expr_len pos else next
default_expr_from (suc fuel) (c ∷ s) target = none

unfoldable pub get_default_expr_from_vcol_defs : Bytes → ℕ → Option Bytes
unfolding default_expr_from
get_default_expr_from_vcol_defs vcol_defs target =
    default_expr_from (length vcol_defs) vcol_defs target

-- isalnum(c) or an underscore
unfoldable pub is_identifier_byte : ℕ → Bool
is_identifier_byte c =
    (leb b'0' c && leb c b'9')
    || ((leb b'A' c && leb c b'Z') || ((leb b'a' c && leb c b'z') || (c == b'_')))

-- The function's name at some position, behind a byte that is no part of an identifier.
unfoldable pub has_func : Bytes → ℕ → Bytes → Bool
unfolding is_identifier_byte same_bytes upper
has_func func prev [] = false
has_func func prev (c ∷ s) =
    (same_bytes (upper (take (length func) (c ∷ s))) (upper func) && not (is_identifier_byte prev))
    || has_func func c s

unfoldable pub has_mariadb_sequence_func : Bytes → Bool
unfolding has_func
has_mariadb_sequence_func expr =
    has_func (codes "nextval(") 32 expr
    || (has_func (codes "lastval(") 32 expr || has_func (codes "setval(") 32 expr)

-- "" where the share does not have the text, which a read behind its end counts as here.
unfoldable pub get_expr_default_text : Column → Bytes
get_expr_default_text c =
    if not c.default_value
    then []
    else elim (get_default_expr_from_vcol_defs c.vcol_defs c.field_index) [
      | none ↦ []
      | some expr ↦ expr
    ]

unfoldable pub is_sequence_default : Column → Bool
is_sequence_default c = has_mariadb_sequence_func (get_expr_default_text c)

abbrev pub is_bit : FieldType → Bool
is_bit type_bit = true
is_bit _ = false

-- The default record's value as a literal. escape_quotes_for_mysql doubles single quotes.
unfoldable pub get_field_default_for_duckdb : Column → Bool → Bytes
unfolding hex_bytes double
get_field_default_for_duckdb c cast_bit =
    if c.default_null
    then codes "NULL"
    else if is_bit c.field.real_type
    then codes "'"
      ++ (elim c.default_str [ none ↦ [] | some val ↦ hex_bytes val ]
          ++ (codes "'" ++ (if cast_bit then codes "::BLOB" else [])))
    else elim c.default_str [
      | none ↦ codes "NULL"
      | some val ↦ codes "'" ++ (double b'\'' val ++ codes "'")
    ]
