-- ===== src/Ddl/Create.antt =====
-- CREATE TABLE: FieldConvertor and CreateTableConvertor of convertor/ddl_convertor.cc.
use duckdb_engine.Prelude.{
  ℕ, ◌-◌, ◌^◌, Bool, true, false, not, ◌&&◌, ◌||◌, Bytes, [], ◌∷◌, ◌++◌, codes, List, Option, none,
  some, ltb, leb, ◌==◌, if◌then◌else◌,
}
use duckdb_engine.Sql.Quote.{quote_duckdb_identifier}
use duckdb_engine.Sql.Quote.Sequence.{autoinc_sequence_name, autoinc_nextval_expr}
use duckdb_engine.Convert.Numbers.{to_string}
use duckdb_engine.Convert.Types.{same_bytes, convert_type}
use duckdb_engine.Ddl.Columns.{Column, name_of, same_name}
use duckdb_engine.Ddl.Defaults.{
  has_mariadb_sequence_func, get_expr_default_text, get_field_default_for_duckdb,
}

pub data DdlContext : Type 0 where
  alter create : DdlContext

-- The errors that the checks report.
pub data DdlError : Type 0 where
  cant_handle_auto_increment requires_primary_key : DdlError
  illegal_create_option : Bytes → DdlError
  get_errmsg : Bytes → DdlError

unfoldable pub report_duckdb_table_struct_error : Bytes → Bytes → Bytes → DdlContext → DdlError
report_duckdb_table_struct_error not_supported try_instead column create =
    illegal_create_option not_supported
report_duckdb_table_struct_error not_supported try_instead column alter = get_errmsg (
    not_supported
    ++ (codes " is not supported. Try " ++ (try_instead ++ (codes " '" ++ (column ++ codes "'")))))

abbrev pub is_alter : DdlContext → Bool
is_alter alter = true
is_alter create = false

unfoldable pub is_utf8_name : Bytes → Bool
unfolding same_bytes
is_utf8_name name =
    same_bytes name (codes "utf8")
    || (same_bytes name (codes "utf8mb3")
        || (same_bytes name (codes "utf8mb4") || same_bytes name (codes "ascii")))

-- FieldConvertor::check. INVISIBLE_USER is 1 and INVISIBLE_SYSTEM is 2.
unfoldable pub field_check : Column → DdlContext → Option DdlError
unfolding report_duckdb_table_struct_error is_utf8_name
field_check c ctx =
    if c.auto_increment && is_alter ctx
    then some cant_handle_auto_increment
    else if leb 1 c.invisible
    then some (
        report_duckdb_table_struct_error (codes "INVISIBLE column")
          (codes "removing INVISIBLE from column") (name_of c) ctx)
    else if c.field.has_charset && not (is_utf8_name c.field.charset.cs_name)
    then some (
        report_duckdb_table_struct_error (codes "non-utf8 charset")
          (codes "using utf8mb4 charset for column") (name_of c) ctx)
    else none

-- The DEFAULT clause of a column definition.
unfoldable pub default_clause : Column → Bytes
default_clause c =
    if c.no_default_value || c.auto_increment
    then []
    else if c.default_value
    then (let expr_str = get_expr_default_text c in
        if has_mariadb_sequence_func expr_str
        then []
        else if not (same_bytes expr_str [])
        then codes " DEFAULT (" ++ (expr_str ++ codes ")")
        else [])
    else if c.default_record
    then (let def = get_field_default_for_duckdb c true in
        if same_bytes def (codes "NULL") then [] else codes " DEFAULT " ++ def)
    else []

-- FieldConvertor::translate
unfoldable pub field_translate : Bool → Column → Bytes
field_translate use_double c =
    if leb 2 c.invisible
    then []
    else quote_duckdb_identifier (name_of c)
      ++ (codes " "
          ++ (convert_type use_double c.field
              ++ ((if c.not_null then codes " NOT NULL" else []) ++ default_clause c)))

unfoldable pub has_autoinc_field : List Column → Bool
has_autoinc_field [] = false
has_autoinc_field (c ∷ cs) = c.auto_increment || has_autoinc_field cs

unfoldable pub fields_check : List Column → Option DdlError
fields_check [] = none
fields_check (c ∷ cs) = elim (field_check c create) [ none ↦ fields_check cs | some e ↦ some e ]

-- A key of the table: HA_NOSAME and the name.
pub record Key : Type 0 where
  pub no_same : Bool
  pub key_name : Bytes

unfoldable pub is_primary_key : Key → Bool
unfolding same_name
is_primary_key key = key.no_same && same_name key.key_name (codes "PRIMARY")

-- The key that TABLE_SHARE::primary_key names, or else any key. The index may be MAX_KEY or
-- garbage, which is out of the range.
unfoldable pub key_at : List Key → ℕ → Bool
unfolding is_primary_key
key_at [] i = false
key_at (k ∷ ks) i = if i == 0 then is_primary_key k else key_at ks (i - 1)

unfoldable pub any_primary_key : List Key → Bool
unfolding is_primary_key
any_primary_key [] = false
any_primary_key (k ∷ ks) = is_primary_key k || any_primary_key ks

-- CreateTableConvertor::check
unfoldable pub create_check : Bool → Bool → List Column → List Key → ℕ → Option DdlError
create_check require_primary_key is_create_table columns keys primary_key =
    elim (fields_check columns) [
      | some e ↦ some e
      | none ↦
          if not is_create_table && has_autoinc_field columns
          then some cant_handle_auto_increment
          else if require_primary_key && not (key_at keys primary_key || any_primary_key keys)
          then some requires_primary_key
          else none
    ]

unfoldable pub column_definition : Bool → Bytes → Bytes → Column → Bytes
column_definition use_double schema_name table_name c =
    field_translate use_double c
    ++ (if c.auto_increment
        then codes " DEFAULT " ++ autoinc_nextval_expr schema_name table_name
        else [])

-- CreateTableConvertor::append_column_definition, for a column that others precede or not.
unfoldable pub column_definitions : Bool → Bytes → Bytes → Bool → List Column → Bytes
column_definitions use_double schema_name table_name first [] = []
column_definitions use_double schema_name table_name first (c ∷ cs) =
    (if first then [] else codes ",")
    ++ (column_definition use_double schema_name table_name c
        ++ column_definitions use_double schema_name table_name false cs)

-- The first id: AUTO_INCREMENT's value or 1, and INT64_MAX at most.
unfoldable pub sequence_start : ℕ → ℕ
sequence_start auto_increment_value =
    let start = if auto_increment_value == 0 then 1 else auto_increment_value in
    if ltb (2 ^ 63 - 1) start then 2 ^ 63 - 1 else start

unfoldable pub create_sequence : Bytes → Bytes → ℕ → Bytes
create_sequence schema_name table_name auto_increment_value =
    codes "CREATE SEQUENCE IF NOT EXISTS "
    ++ (quote_duckdb_identifier schema_name
        ++ (codes "."
            ++ (quote_duckdb_identifier (autoinc_sequence_name table_name)
                ++ (codes " START WITH "
                    ++ (to_string (sequence_start auto_increment_value) ++ codes ";")))))

-- CreateTableConvertor::translate
unfoldable pub create_table : Bool → Bytes → Bytes → ℕ → List Column → Bytes
create_table use_double schema_name table_name auto_increment_value columns =
    codes "CREATE SCHEMA IF NOT EXISTS "
    ++ (quote_duckdb_identifier schema_name
        ++ (codes ";"
            ++ (codes "USE "
                ++ (quote_duckdb_identifier schema_name
                    ++ (codes ";"
                        ++ ((if has_autoinc_field columns
                              then create_sequence schema_name table_name auto_increment_value
                              else [])
                            ++ (codes "CREATE TABLE IF NOT EXISTS "
                                ++ (quote_duckdb_identifier table_name
                                    ++ (codes " ("
                                        ++ (column_definitions use_double schema_name table_name
                                              true columns
                                            ++ codes ");"))))))))))
