-- ===== src/Tests/Columns.antt =====
-- Columns and an ALTER TABLE as the convertors of DDL meet them.
use duckdb_engine.Prelude.{Bool, true, false, [], ◌∷◌, codes, List, none, some, All, ◌≡◌, ◌⊎◌, refl}
use duckdb_engine.Convert.Fields.{Charset, Field, MysqlTime, type_long}
use duckdb_engine.Convert.Types.{same_bytes}
use duckdb_engine.Ddl.Columns.{Column, column_set_not_null}
use duckdb_engine.Ddl.Defaults.{
  is_sequence_default, get_default_expr_from_vcol_defs, get_expr_default_text,
  has_mariadb_sequence_func,
}
use duckdb_engine.Ddl.Defaults.Blob.{Entry, encode, default_in, get_default_expr-encode}
use duckdb_engine.Ddl.Alter.{CreateField, keep_default, default_change, add_default, sets_default}
use duckdb_engine.Ddl.Alter.Wanted.{wanted, changed_default, AreSameLiterals, default_change-wanted}
use duckdb_engine.Ddl.Change.{change_columns, default_statement}
use duckdb_engine.Ddl.Create.{default_clause}
use duckdb_engine.Ddl.Commit.{Convertor, Log, Query, collect, commit_inplace_alter_table}
use duckdb_engine.Ddl.Commit.Atomic.{IsAtomic, commit_inplace_alter_table-IsAtomic}
use duckdb_engine.Ddl.Forwarding.{
  SetsNone, KeepsType, change_columns-KeepsType, sequence_default-SetsNone,
}

abbrev binary : Charset
binary = record {
  cs_name = codes "binary";
  is_binsort = true;
  is_lower_sort = false;
  secondary_level = false;
  tertiary_level = false;
}

abbrev midnight : MysqlTime
midnight = record { neg = false; hour = 0; minute = 0; second = 0; second_part = 0 }

abbrev amount : Field
amount = record {
  field_name = codes "amount";
  real_type = type_long;
  is_uuid = false;
  is_unsigned = false;
  has_charset = false;
  charset = binary;
  precision = 10;
  dec = 0;
  is_null = false;
  val_str = codes "7";
  val_scientific = [];
  val_decimal = [];
  get_date = midnight;
}

-- A column with the default 7.
abbrev seven : Column
seven = record {
  field = amount;
  not_null = false;
  no_default_value = false;
  auto_increment = false;
  pri_key = false;
  invisible = 0;
  field_index = 1;
  default_value = false;
  vcol_defs = [];
  default_record = true;
  default_null = false;
  default_str = some (codes "7");
}

abbrev eight : Column
eight = record seven { default_str = some (codes "8") }

abbrev expressions : List Entry
expressions =
    record { type = 1; field_nr = 1; name = codes "c"; expr = codes "a + 1" }
    ∷ record { type = 2; field_nr = 1; name = []; expr = codes "nextval(`s`)" }
    ∷ []

abbrev from_sequence : Column
from_sequence = record seven { default_value = true; vcol_defs = encode expressions }

get_default_expr-encode_example :
    get_default_expr_from_vcol_defs (encode expressions) 1 ≡ some (default_in expressions 1)
get_default_expr-encode_example = get_default_expr-encode expressions 1

default_change-wanted_example :
    (changed_default (default_change same_bytes seven eight) (wanted seven) eight ≡ wanted eight)
    ⊎ ((default_change same_bytes seven eight ≡ keep_default)
        × AreSameLiterals same_bytes seven eight)
default_change-wanted_example = default_change-wanted same_bytes seven eight

abbrev changed_amount : CreateField
changed_amount = record {
  field_name = codes "amount";
  change = some (codes "amount");
  old = some seven;
  not_null = true;
  no_default_value = false;
  on_update = false;
}

from_sequence-sequence : is_sequence_default from_sequence ≡ true
unfolding is_sequence_default get_expr_default_text get_default_expr_from_vcol_defs
    has_mariadb_sequence_func encode
from_sequence-sequence = refl

sequence_default-SetsNone_example :
    (default_clause from_sequence ≡ [])
    × (add_default changed_amount from_sequence ≡ none)
    × All SetsNone
        (sets_default same_bytes (default_change same_bytes seven from_sequence) from_sequence)
    × All SetsNone (default_statement (changed_amount, some from_sequence))
sequence_default-SetsNone_example =
    sequence_default-SetsNone from_sequence from_sequence-sequence refl same_bytes changed_amount
      seven refl

change_columns-KeepsType_example :
    All KeepsType (change_columns false ((changed_amount, some eight) ∷ []))
change_columns-KeepsType_example =
    change_columns-KeepsType false ((changed_amount, some eight) ∷ [])

-- DuckDB refuses nothing but a second query.
refuses : Log → Query → Bool
refuses [] q = false
refuses (x ∷ []) q = true
refuses (x ∷ y ∷ log) q = false

active : Log → Bool
active log = true

abbrev one_convertor : List Convertor
one_convertor = (false, column_set_not_null (codes "amount") ∷ []) ∷ []

commit_inplace_alter_table-IsAtomic_example :
    IsAtomic (collect (codes "shop") (codes "items") one_convertor) (
      commit_inplace_alter_table refuses active true false
        (codes "shop")
        (codes "items")
        one_convertor)
commit_inplace_alter_table-IsAtomic_example =
    commit_inplace_alter_table-IsAtomic refuses active false (codes "shop") (codes "items")
      one_convertor
