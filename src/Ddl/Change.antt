-- ===== src/Ddl/Change.antt =====
-- CHANGE COLUMN and MODIFY COLUMN, the NOT NULL of a new primary key, and RENAME TABLE:
-- ChangeColumnConvertor, ChangeColumnForPrimaryKeyConvertor and RenameTableConvertor of
-- convertor/ddl_convertor.cc.
use duckdb_engine.Prelude.{
  Bool, true, false, not, ◌&&◌, Bytes, [], ◌∷◌, ◌++◌, List, Option, none, some, if◌then◌else◌,
}
use duckdb_engine.Convert.Types.{same_bytes, convert_type}
use duckdb_engine.Ddl.Columns.{
  Column, name_of, same_name, DdlStatement, column_change_type, column_rename, column_set_default,
  column_drop_default, column_set_not_null, column_drop_not_null, table_rename,
}
use duckdb_engine.Ddl.Defaults.{get_expr_default_text, has_mariadb_sequence_func}
use duckdb_engine.Ddl.Alter.{CreateField, find_field, for_each, only_if, default_of}

-- The comparison of the types is not written: nothing has changed.
unfoldable pub is_type_changed : CreateField → Option Column → Bool
is_type_changed f old = false

unfoldable pub is_nullable_change : CreateField → Option Column → Bool
is_nullable_change f none = false
is_nullable_change f (some old) = if old.not_null then not f.not_null else f.not_null

unfoldable pub is_name_changed : CreateField → Bool
is_name_changed f = elim f.change [
  | none ↦ false
  | some old_name ↦ not (same_name f.field_name old_name)
]

-- m_columns: the fields of CHANGE COLUMN, each with its column of the new table, if it is there.
unfoldable pub changed_columns : List Column → List CreateField → List (CreateField × Option Column)
changed_columns new_table [] = []
changed_columns new_table (f ∷ fs) =
    let rest = changed_columns new_table fs in
    elim f.change [ none ↦ rest | some old_name ↦ (f, find_field new_table f.field_name) ∷ rest ]

unfoldable pub old_expr_text : Option Column → Bytes
old_expr_text none = []
old_expr_text (some old) = get_expr_default_text old

unfoldable pub rename_statement : CreateField × Option Column → List DdlStatement
rename_statement (f, c) = elim f.old [
  | none ↦ []
  | some old ↦ only_if (is_name_changed f) (column_rename (name_of old) f.field_name ∷ [])
]

unfoldable pub type_statement : Bool → CreateField × Option Column → List DdlStatement
unfolding is_type_changed
type_statement use_double (f, none) = []
type_statement use_double (f, some c) =
    only_if (is_type_changed f f.old)
      (column_change_type (name_of c) (convert_type use_double c.field) ∷ [])

unfoldable pub default_statement : CreateField × Option Column → List DdlStatement
default_statement (f, none) = only_if f.no_default_value (column_drop_default f.field_name ∷ [])
default_statement (f, some c) =
    let new_expr = get_expr_default_text c in
    if f.no_default_value
    then column_drop_default f.field_name ∷ []
    else if c.no_default_value
    then []
    else if has_mariadb_sequence_func new_expr
    then only_if (not (same_bytes new_expr (old_expr_text f.old)))
        (column_drop_default f.field_name ∷ [])
    else column_set_default f.field_name (default_of c) ∷ []

unfoldable pub nullable_statement : Bool → CreateField × Option Column → List DdlStatement
unfolding is_nullable_change
nullable_statement true (f, c) =
    only_if (is_nullable_change f f.old && f.not_null) (column_set_not_null f.field_name ∷ [])
nullable_statement false (f, c) =
    only_if (is_nullable_change f f.old && not f.not_null) (column_drop_not_null f.field_name ∷ [])

-- Each kind of change is a pass over all columns.
unfoldable pub change_columns : Bool → List (CreateField × Option Column) → List DdlStatement
change_columns use_double columns =
    for_each rename_statement columns
    ++ (for_each (type_statement use_double) columns
        ++ (for_each default_statement columns
            ++ (for_each (nullable_statement false) columns
                ++ for_each (nullable_statement true) columns)))

unfoldable pub primary_key_columns : List Column → List DdlStatement
primary_key_columns new_table =
    for_each
      (λ (c : Column). only_if (c.pri_key && c.not_null) (column_set_not_null (name_of c) ∷ []))
      new_table

-- RenameTableConvertor, whose check refuses another schema.
unfoldable pub rename_check : Bytes → Bytes → Bool
unfolding same_bytes
rename_check schema_name new_schema_name = not (same_bytes new_schema_name schema_name)

unfoldable pub rename_statements : Bytes → List DdlStatement
rename_statements new_table_name = table_rename new_table_name ∷ []
