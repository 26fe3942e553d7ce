-- ===== src/Convert/Types/Agreement.antt =====
-- A column of a table of the engine and the same column read from another engine's table have one
-- type in DuckDB, and where they have not.
use duckdb_engine.Prelude.{
  ℕ, Bool, true, false, Bytes, codes, ◌++◌, [], ◌≡◌, ◌⊎◌, inl, inr, refl, sym, ap, ◌∙◌, arith,
  append-nil, if◌then◌else◌, leb, ltb,
}
use duckdb_engine.Convert.Fields.{
  FieldType, type_tiny, type_short, type_int24, type_long, type_longlong, type_float, type_double,
  type_decimal, type_newdecimal, type_timestamp, type_timestamp2, type_newdate, type_date,
  type_time, type_time2, type_datetime, type_datetime2, type_year, type_bit, type_geometry,
  type_null, type_set, type_enum, type_string, type_varchar, type_var_string, type_blob,
  type_tiny_blob, type_medium_blob, type_long_blob, Field,
}
use duckdb_engine.Convert.Numbers.{to_string, to_upper, upper, upper-append, upper-to_string}
use duckdb_engine.Convert.Types.{
  Collation, collation_binary, collation_nocase, collation_nocase_noaccent, same_bytes,
  get_duckdb_collation, collation_name, decimal_name, convert_decimal, type_text, with_collation,
  convert_type, LogicalType, utinyint, tinyint, usmallint, smallint, uinteger, integer, ubigint,
  bigint, float, double, decimal, date, time, timestamp, timestamp_tz, blob, varchar, uuid,
  text_type, logical_type, field_to_logical_type,
}

-- The name that DuckDB's parser knows a type by.
abbrev pub type_name : LogicalType → Bytes
type_name utinyint = codes "UTINYINT"
type_name tinyint = codes "TINYINT"
type_name usmallint = codes "USMALLINT"
type_name smallint = codes "SMALLINT"
type_name uinteger = codes "UINTEGER"
type_name integer = codes "INTEGER"
type_name ubigint = codes "UBIGINT"
type_name bigint = codes "BIGINT"
type_name float = codes "FLOAT"
type_name double = codes "DOUBLE"
type_name (decimal p s) =
    codes "DECIMAL(" ++ (to_string p ++ (codes "," ++ (to_string s ++ codes ")")))
type_name date = codes "DATE"
type_name time = codes "TIME"
type_name timestamp = codes "DATETIME"
type_name timestamp_tz = codes "TIMESTAMPTZ"
type_name blob = codes "BLOB"
type_name varchar = codes "VARCHAR"
type_name uuid = codes "UUID"

-- The collation of a text column with a character set.
abbrev pub collate : Field → LogicalType → Bytes
collate f varchar =
    if f.has_charset
    then codes " COLLATE " ++ collation_name (get_duckdb_collation f.charset)
    else []
collate f _ = []

-- The columns that the comparison is about: decimals that DuckDB can hold, strings with a character
-- set or of UUIDs, and blobs by the one type that the server gives them. It leaves out NULL columns,
-- decimals of more than 38 digits, BINARY and VARBINARY strings that are no UUIDs, and the real types
-- of tiny, medium and long blobs, and takes only strings, SET and ENUM columns for UUIDs.
abbrev pub Shared : Field → FieldType → Type 0
Shared f type_decimal = (f.is_uuid ≡ false) × (leb f.precision 38 ≡ true)
Shared f type_newdecimal = (f.is_uuid ≡ false) × (leb f.precision 38 ≡ true)
Shared f type_string = (f.is_uuid ≡ true) ⊎ (f.has_charset ≡ true)
Shared f type_varchar = (f.is_uuid ≡ true) ⊎ (f.has_charset ≡ true)
Shared f type_var_string = (f.is_uuid ≡ true) ⊎ (f.has_charset ≡ true)
Shared f type_set = Unit
Shared f type_enum = Unit
Shared f type_null = ⊥
Shared f type_tiny_blob = ⊥
Shared f type_medium_blob = ⊥
Shared f type_long_blob = ⊥
Shared f _ = f.is_uuid ≡ false

upper-collation : (c : Collation) → upper (collation_name c) ≡ collation_name c
unfolding upper to_upper
upper-collation collation_binary = refl
upper-collation collation_nocase = refl
upper-collation collation_nocase_noaccent = refl

-- The text of a type, with its collation and in upper case.
abbrev written : Field → Bytes → Bytes
written f ret = upper (with_collation f ret)

abbrev spelled : Field → LogicalType → Bytes
spelled f t = type_name t ++ collate f t

collated :
    (b : Bool) (c : Collation)
    → upper (if b then codes "varchar COLLATE " ++ collation_name c else codes "varchar")
      ≡ codes "VARCHAR" ++ (if b then codes " COLLATE " ++ collation_name c else [])
unfolding upper to_upper
collated true c = ap (λ t. codes "VARCHAR COLLATE " ++ t) (upper-collation c)
collated false c = refl

written-varchar : (f : Field) → written f (codes "varchar") ≡ spelled f varchar
unfolding with_collation same_bytes
written-varchar f = collated f.has_charset (get_duckdb_collation f.charset)

written-decimal : (f : Field) (p s : ℕ) → written f (decimal_name p s) ≡ spelled f (decimal p s)
unfolding with_collation same_bytes upper to_upper
written-decimal f p s =
    ap (λ t. codes "DECIMAL(" ++ t)
      (upper-append (to_string p) (codes "," ++ (to_string s ++ codes ")"))
        ∙ ap (λ t. t ++ (codes "," ++ upper (to_string s ++ codes ")"))) (upper-to_string p)
        ∙ ap (λ t. to_string p ++ (codes "," ++ t))
            (upper-append (to_string s) (codes ")") ∙ ap (λ t. t ++ codes ")") (upper-to_string s)))
    ∙ sym (append-nil (type_name (decimal p s)))

-- A plain branch of the switch, by the sign of the column.
written-signed :
    (f : Field) (b : Bool) (s t : Bytes) (x y : LogicalType)
    → written f s ≡ spelled f x
    → written f t ≡ spelled f y
    → written f (if b then s else t) ≡ spelled f (if b then x else y)
written-signed f true s t x y p q = p
written-signed f false s t x y p q = q

-- Text, unless the column holds UUIDs.
text_on :
    (b : Bool) (f : Field) (ret : Bytes)
    → (b ≡ true) ⊎ (written f ret ≡ spelled f varchar)
    → (if b then codes "UUID" else written f ret) ≡ spelled f (if b then uuid else varchar)
text_on true f ret h = refl
text_on false f ret (inl e) = cc
text_on false f ret (inr h) = h

abbrev text_or_blob : Bool → Bytes
text_or_blob b = if b then codes "varchar" else codes "blob"

string_text :
    (f : Field)
    → (f.is_uuid ≡ true) ⊎ (f.has_charset ≡ true)
    → (f.is_uuid ≡ true) ⊎ (written f (text_or_blob f.has_charset) ≡ spelled f varchar)
string_text f (inl e) = inl e
string_text f (inr e) = inr (ap (λ b. written f (text_or_blob b)) e ∙ written-varchar f)

decimal_text :
    (use_double : Bool) (f : Field)
    → leb f.precision 38 ≡ true
    → written f (convert_decimal use_double f.precision f.dec)
      ≡ spelled f (decimal (if ltb 38 f.precision then 38 else f.precision) f.dec)
unfolding convert_decimal
decimal_text use_double f e =
    let clamped : f.precision ≡ (if ltb 38 f.precision then 38 else f.precision) = ground arith in
    rw e (written-decimal f f.precision f.dec) ∙ ap (λ p. spelled f (decimal p f.dec)) clamped

type_agreement :
    (use_double : Bool) (f : Field) (t : FieldType)
    → Shared f t
    → (if f.is_uuid then codes "UUID" else written f (type_text use_double f t))
      ≡ spelled f (logical_type f t)
unfolding type_text logical_type text_type with_collation same_bytes upper to_upper
type_agreement use_double f type_tiny u =
    rw u (written-signed f f.is_unsigned _ _ utinyint tinyint refl refl)
type_agreement use_double f type_short u =
    rw u (written-signed f f.is_unsigned _ _ usmallint smallint refl refl)
type_agreement use_double f type_int24 u =
    rw u (written-signed f f.is_unsigned _ _ uinteger integer refl refl)
type_agreement use_double f type_long u =
    rw u (written-signed f f.is_unsigned _ _ uinteger integer refl refl)
type_agreement use_double f type_longlong u =
    rw u (written-signed f f.is_unsigned _ _ ubigint bigint refl refl)
type_agreement use_double f type_float u = rw u refl
type_agreement use_double f type_double u = rw u refl
type_agreement use_double f type_timestamp u = rw u refl
type_agreement use_double f type_timestamp2 u = rw u refl
type_agreement use_double f type_newdate u = rw u refl
type_agreement use_double f type_date u = rw u refl
type_agreement use_double f type_time u = rw u refl
type_agreement use_double f type_time2 u = rw u refl
type_agreement use_double f type_datetime u = rw u refl
type_agreement use_double f type_datetime2 u = rw u refl
type_agreement use_double f type_year u = rw u refl
type_agreement use_double f type_bit u = rw u refl
type_agreement use_double f type_geometry u = rw u refl
type_agreement use_double f type_decimal (u, e) = rw u (decimal_text use_double f e)
type_agreement use_double f type_newdecimal (u, e) = rw u (decimal_text use_double f e)
type_agreement use_double f type_set u =
    text_on f.is_uuid f (codes "varchar") (inr (written-varchar f))
type_agreement use_double f type_enum u =
    text_on f.is_uuid f (codes "varchar") (inr (written-varchar f))
type_agreement use_double f type_string u =
    text_on f.is_uuid f (text_or_blob f.has_charset) (string_text f u)
type_agreement use_double f type_varchar u =
    text_on f.is_uuid f (text_or_blob f.has_charset) (string_text f u)
type_agreement use_double f type_var_string u =
    text_on f.is_uuid f (text_or_blob f.has_charset) (string_text f u)
type_agreement use_double f type_blob u =
    rw u (written-signed f f.has_charset _ _ varchar blob (written-varchar f) refl)
type_agreement use_double f type_null u = absurd u
type_agreement use_double f type_tiny_blob u = absurd u
type_agreement use_double f type_medium_blob u = absurd u
type_agreement use_double f type_long_blob u = absurd u

-- For every column but a NULL column, a decimal of more than 38 digits, a string without a character
-- set that is no UUID, and one of a tiny, medium or long blob's real type, the type that the column
-- gets in a table of the engine is, by DuckDB's name of it, the type that a scan of another engine's
-- table gives the same column. Of types other than strings, SET and ENUM no column may be a UUID. The
-- table's column has a collation besides, if it is text with a character set.
pub types-agree :
    (use_double : Bool) (f : Field)
    → Shared f f.real_type
    → convert_type use_double f
      ≡ type_name (field_to_logical_type f) ++ collate f (field_to_logical_type f)
unfolding convert_type field_to_logical_type
types-agree use_double f h = type_agreement use_double f f.real_type h

-- A fixed or variable string of bytes, with no character set, is a BLOB in a table of the engine and
-- text in a scan of another engine's table.
pub binary_strings-differ :
    (use_double : Bool) (f : Field)
    → f.is_uuid ≡ false
    → f.has_charset ≡ false
    → (f.real_type ≡ type_string) ⊎ (f.real_type ≡ type_varchar)
    → (convert_type use_double f ≡ type_name blob) × (field_to_logical_type f ≡ varchar)
unfolding convert_type field_to_logical_type type_text logical_type text_type with_collation
    same_bytes upper to_upper
binary_strings-differ use_double f u c (inl e) = (rw (u, e, c) refl, rw (u, e) refl)
binary_strings-differ use_double f u c (inr e) = (rw (u, e, c) refl, rw (u, e) refl)
