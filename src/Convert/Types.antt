-- ===== src/Convert/Types.antt =====
-- convertor/ddl_convertor.cc: FieldConvertor::convert_type; common/duckdb_charset_collation.cc:
-- get_duckdb_collation; runtime/cross_engine_scan.cc: field_to_logical_type.
pub mod Agreement
pub mod Compare
use duckdb_engine.Prelude.{
  ℕ, Bool, true, false, not, ◌&&◌, ◌||◌, Bytes, codes, ◌++◌, List, [], ◌∷◌, ◌==◌, leb, ltb,
  if◌then◌else◌,
}
use duckdb_engine.Convert.Fields.{
  FieldType, type_tiny, type_short, type_int24, type_long, type_longlong, type_float, type_double,
  type_decimal, type_newdecimal, type_timestamp, type_timestamp2, type_newdate, type_date,
  type_time, type_time2, type_datetime, type_datetime2, type_year, type_bit, type_geometry,
  type_null, type_set, type_enum, type_string, type_varchar, type_var_string, type_blob,
  type_tiny_blob, type_medium_blob, type_long_blob, Charset, Field,
}
use duckdb_engine.Convert.Numbers.{to_string, upper}

-- strcmp(a, b) == 0
unfoldable pub same_bytes : Bytes → Bytes → Bool
same_bytes [] [] = true
same_bytes [] (d ∷ t) = false
same_bytes (c ∷ s) [] = false
same_bytes (c ∷ s) (d ∷ t) = c == d && same_bytes s t

pub data Collation : Type 0 where
  collation_binary collation_nocase collation_nocase_noaccent : Collation

unfoldable pub get_duckdb_collation : Charset → Collation
unfolding same_bytes
get_duckdb_collation cs =
    if not (same_bytes cs.cs_name (codes "utf8mb3"))
      && not (same_bytes cs.cs_name (codes "utf8mb4"))
      && not (same_bytes cs.cs_name (codes "ascii"))
    then collation_binary
    else if cs.is_binsort
    then collation_binary
    else if cs.is_lower_sort
    then collation_nocase
    else if not cs.tertiary_level && not cs.secondary_level
    then collation_nocase_noaccent
    else if not cs.tertiary_level
    then collation_nocase
    else collation_binary

abbrev pub collation_name : Collation → Bytes
collation_name collation_binary = codes "POSIX"
collation_name collation_nocase = codes "NOCASE"
collation_name collation_nocase_noaccent = codes "NOCASE.NOACCENT"

-- decimal(p,s)
abbrev pub decimal_name : ℕ → ℕ → Bytes
decimal_name p s = codes "decimal(" ++ (to_string p ++ (codes "," ++ (to_string s ++ codes ")")))

-- The branch of the decimals: `use_double` is the global use_double_for_decimal.
unfoldable pub convert_decimal : Bool → ℕ → ℕ → Bytes
convert_decimal use_double precision dec =
    if leb precision 38
    then decimal_name precision dec
    else if use_double
    then codes "double"
    else decimal_name 38 (if ltb 38 dec then 38 else dec)

-- The switch of convert_type.
unfoldable pub type_text : Bool → Field → FieldType → Bytes
unfolding convert_decimal
type_text use_double f type_tiny = if f.is_unsigned then codes "utinyint" else codes "tinyint"
type_text use_double f type_short = if f.is_unsigned then codes "usmallint" else codes "smallint"
type_text use_double f type_int24 = if f.is_unsigned then codes "uinteger" else codes "integer"
type_text use_double f type_long = if f.is_unsigned then codes "uinteger" else codes "integer"
type_text use_double f type_longlong = if f.is_unsigned then codes "ubigint" else codes "bigint"
type_text use_double f type_float = codes "float"
type_text use_double f type_double = codes "double"
type_text use_double f type_decimal = convert_decimal use_double f.precision f.dec
type_text use_double f type_newdecimal = convert_decimal use_double f.precision f.dec
type_text use_double f type_timestamp = codes "timestamptz"
type_text use_double f type_timestamp2 = codes "timestamptz"
type_text use_double f type_newdate = codes "date"
type_text use_double f type_date = codes "date"
type_text use_double f type_time = codes "time"
type_text use_double f type_time2 = codes "time"
type_text use_double f type_datetime = codes "datetime"
type_text use_double f type_datetime2 = codes "datetime"
type_text use_double f type_year = codes "integer"
type_text use_double f type_bit = codes "blob"
type_text use_double f type_geometry = codes "blob"
type_text use_double f type_null = []
type_text use_double f type_set = codes "varchar"
type_text use_double f type_enum = codes "varchar"
type_text use_double f type_blob = if f.has_charset then codes "varchar" else codes "blob"
type_text use_double f type_string = if f.has_charset then codes "varchar" else codes "blob"
type_text use_double f type_varchar = if f.has_charset then codes "varchar" else codes "blob"
type_text use_double f type_var_string = if f.has_charset then codes "varchar" else codes "blob"
type_text use_double f _ = codes "__unknown_type"

unfoldable pub with_collation : Field → Bytes → Bytes
unfolding same_bytes get_duckdb_collation
with_collation f ret =
    if same_bytes ret (codes "varchar") && f.has_charset
    then ret ++ (codes " COLLATE " ++ collation_name (get_duckdb_collation f.charset))
    else ret

unfoldable pub convert_type : Bool → Field → Bytes
unfolding type_text with_collation upper
convert_type use_double f =
    if f.is_uuid
    then codes "UUID"
    else upper (with_collation f (type_text use_double f f.real_type))

-- duckdb::LogicalType
pub data LogicalType : Type 0 where
  utinyint tinyint usmallint smallint uinteger integer ubigint bigint float double : LogicalType
  decimal : ℕ → ℕ → LogicalType
  date time timestamp timestamp_tz blob varchar uuid : LogicalType

unfoldable pub text_type : Field → LogicalType
text_type f = if f.is_uuid then uuid else varchar

unfoldable pub logical_type : Field → FieldType → LogicalType
unfolding text_type
logical_type f type_tiny = if f.is_unsigned then utinyint else tinyint
logical_type f type_short = if f.is_unsigned then usmallint else smallint
logical_type f type_int24 = if f.is_unsigned then uinteger else integer
logical_type f type_long = if f.is_unsigned then uinteger else integer
logical_type f type_longlong = if f.is_unsigned then ubigint else bigint
logical_type f type_float = float
logical_type f type_double = double
logical_type f type_decimal = decimal (if ltb 38 f.precision then 38 else f.precision) f.dec
logical_type f type_newdecimal = decimal (if ltb 38 f.precision then 38 else f.precision) f.dec
logical_type f type_date = date
logical_type f type_newdate = date
logical_type f type_time = time
logical_type f type_time2 = time
logical_type f type_datetime = timestamp
logical_type f type_datetime2 = timestamp
logical_type f type_timestamp = timestamp_tz
logical_type f type_timestamp2 = timestamp_tz
logical_type f type_year = integer
logical_type f type_bit = blob
logical_type f type_geometry = blob
logical_type f type_blob = if f.has_charset then varchar else blob
logical_type f type_tiny_blob = if f.has_charset then varchar else blob
logical_type f type_medium_blob = if f.has_charset then varchar else blob
logical_type f type_long_blob = if f.has_charset then varchar else blob
logical_type f type_string = text_type f
logical_type f type_varchar = text_type f
logical_type f type_var_string = text_type f
logical_type f type_set = text_type f
logical_type f type_enum = text_type f
logical_type f type_null = varchar

unfoldable pub field_to_logical_type : Field → LogicalType
unfolding logical_type
field_to_logical_type f = logical_type f f.real_type
