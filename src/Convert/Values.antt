-- ===== src/Convert/Values.antt =====
-- convertor/dml_convertor.cc: append_field_value_to_sql; convertor/ddl_convertor.cc: toHex. The
-- texts that the server or the C++ library prints itself are fields of the column.
use duckdb_engine.Prelude.{
  ℕ, ◌+◌, ◌*◌, ◌/◌, ◌%◌, Bool, Bytes, codes, ◌++◌, [], ◌∷◌, leb, ltb, if◌then◌else◌,
}
use duckdb_engine.Convert.Fields.{
  FieldType, type_tiny, type_short, type_int24, type_long, type_longlong, type_float, type_double,
  type_newdecimal, type_timestamp, type_timestamp2, type_newdate, type_date, type_time, type_time2,
  type_datetime, type_datetime2, type_year, type_bit, type_geometry, type_set, type_enum,
  type_string, type_varchar, type_blob, type_tiny_blob, type_medium_blob, type_long_blob, MysqlTime,
  Field,
}
use duckdb_engine.Convert.Numbers.{to_string}
use duckdb_engine.Convert.Types.{same_bytes, convert_type}

-- An upper-case hexadecimal digit.
unfoldable pub hex_digit : ℕ → ℕ
hex_digit d = if ltb d 10 then 48 + d else 55 + d

unfoldable pub hex_bytes : Bytes → Bytes
unfolding hex_digit
hex_bytes [] = []
hex_bytes (c ∷ s) = codes "\\x" ++ (hex_digit (c / 16) ∷ hex_digit (c % 16) ∷ hex_bytes s)

unfoldable pub to_hex : Bytes → Bytes
unfolding hex_bytes
to_hex s = codes "'" ++ (hex_bytes s ++ codes "'::BLOB")

-- The microseconds of a time, without its sign.
unfoldable pub micros : MysqlTime → ℕ
micros tm = (tm.hour * 3600 + tm.minute * 60 + tm.second) * 1000000 + tm.second_part

-- mariadb_time(…), where the sign of no microseconds is not printed.
unfoldable pub time_text : MysqlTime → Bytes
unfolding micros
time_text tm =
    codes "mariadb_time("
    ++ ((if tm.neg then (if ltb 0 (micros tm) then codes "-" else []) else [])
        ++ (to_string (micros tm) ++ codes ")"))

abbrev pub in_quotes : Bytes → Bytes
in_quotes s = codes "'" ++ (s ++ codes "'")

-- Strings and blobs.
unfoldable pub string_value : Bool → Field → Bytes
unfolding same_bytes to_hex convert_type
string_value use_double f =
    if f.is_uuid
    then in_quotes f.val_str ++ codes "::UUID"
    else if same_bytes (convert_type use_double f) (codes "BLOB")
    then to_hex f.val_str
    else codes "DECODE(" ++ (to_hex f.val_str ++ codes ")::VARCHAR")

-- The switch over the type of a value that is not NULL. `val_scientific` is the value as a double in
-- scientific notation, `val_decimal` the decimal at its full precision and scale.
unfoldable pub value_text : Bool → Field → FieldType → Bytes
unfolding time_text string_value
value_text use_double f type_tiny = f.val_str
value_text use_double f type_short = f.val_str
value_text use_double f type_int24 = f.val_str
value_text use_double f type_long = f.val_str
value_text use_double f type_longlong = f.val_str
value_text use_double f type_float = f.val_scientific
value_text use_double f type_double = f.val_scientific
value_text use_double f type_newdecimal =
    if leb f.precision 38 then f.val_decimal else if use_double then f.val_scientific else f.val_str
value_text use_double f type_date = in_quotes f.val_str
value_text use_double f type_newdate = in_quotes f.val_str
value_text use_double f type_datetime = in_quotes f.val_str
value_text use_double f type_datetime2 = in_quotes f.val_str
value_text use_double f type_year = in_quotes f.val_str
value_text use_double f type_time = time_text f.get_date
value_text use_double f type_time2 = time_text f.get_date
value_text use_double f type_timestamp = in_quotes f.val_str
value_text use_double f type_timestamp2 = in_quotes f.val_str
value_text use_double f type_set = string_value use_double f
value_text use_double f type_enum = string_value use_double f
value_text use_double f type_bit = string_value use_double f
value_text use_double f type_geometry = string_value use_double f
value_text use_double f type_varchar = string_value use_double f
value_text use_double f type_string = string_value use_double f
value_text use_double f type_tiny_blob = string_value use_double f
value_text use_double f type_blob = string_value use_double f
value_text use_double f type_medium_blob = string_value use_double f
value_text use_double f type_long_blob = string_value use_double f
value_text use_double f _ = codes "__ERROR__"

-- append_field_value_to_sql, without the text that it appends to.
unfoldable pub field_value : Bool → Field → Bytes
unfolding value_text
field_value use_double f = if f.is_null then codes "NULL" else value_text use_double f f.real_type
