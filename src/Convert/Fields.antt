-- ===== src/Convert/Fields.antt =====
-- The server's description of a column and of its value in the current row, as far as the convertors
-- read it. The values that the server prints or unpacks itself are fields of the record.
use duckdb_engine.Prelude.{ℕ, Bool, Bytes}

-- enum_field_types
pub data FieldType : Type 0 where
  type_tiny type_short type_int24 type_long type_longlong type_float type_double : FieldType
  type_decimal type_newdecimal : FieldType
  type_timestamp type_timestamp2 type_newdate type_date type_time type_time2 : FieldType
  type_datetime type_datetime2 type_year type_bit type_geometry type_null : FieldType
  type_set type_enum type_string type_varchar type_var_string : FieldType
  type_blob type_tiny_blob type_medium_blob type_long_blob : FieldType

-- What get_duckdb_collation reads of a CHARSET_INFO.
pub record Charset : Type 0 where
  pub cs_name : Bytes
  pub is_binsort : Bool
  pub is_lower_sort : Bool
  pub secondary_level : Bool
  pub tertiary_level : Bool

-- A MYSQL_TIME that holds a time of day or a duration.
pub record MysqlTime : Type 0 where
  pub neg : Bool
  pub hour : ℕ
  pub minute : ℕ
  pub second : ℕ
  pub second_part : ℕ

pub record Field : Type 0 where
  pub field_name : Bytes
  pub real_type : FieldType
  pub is_uuid : Bool
  pub is_unsigned : Bool
  pub has_charset : Bool
  pub charset : Charset
  pub precision : ℕ
  pub dec : ℕ
  pub is_null : Bool
  pub val_str : Bytes
  pub val_scientific : Bytes
  pub val_decimal : Bytes
  pub get_date : MysqlTime
