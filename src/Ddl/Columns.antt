-- ===== src/Ddl/Columns.antt =====
-- What the convertors of DDL read of a column, and the statements that they build. A statement is a
-- value here; `text` is what the append_stmt functions write for it.
use duckdb_engine.Prelude.{ℕ, Bool, Bytes, [], ◌∷◌, ◌++◌, codes, List, Option, none, some}
use duckdb_engine.Sql.Quote.{quote_duckdb_identifier}
use duckdb_engine.Convert.Fields.{Field}
use duckdb_engine.Convert.Numbers.{upper}
use duckdb_engine.Convert.Types.{same_bytes}

-- A field of a table with its flags, the expressions of its table's share, and what the default
-- record holds of it: `default_null` and `default_str` are is_null() and val_str() there.
pub record Column : Type 0 where
  pub field : Field
  pub not_null : Bool
  pub no_default_value : Bool
  pub auto_increment : Bool
  pub pri_key : Bool
  pub invisible : ℕ
  pub field_index : ℕ
  pub default_value : Bool
  pub vcol_defs : Bytes
  pub default_record : Bool
  pub default_null : Bool
  pub default_str : Option Bytes

abbrev pub name_of : Column → Bytes
name_of c = c.field.field_name

-- strcasecmp(a, b) == 0
unfoldable pub same_name : Bytes → Bytes → Bool
unfolding same_bytes upper
same_name a b = same_bytes (upper a) (upper b)

pub data DdlStatement : Type 0 where
  column_add : Bytes → Bytes → Option Bytes → DdlStatement
  column_drop : Bytes → DdlStatement
  column_change_type : Bytes → Bytes → DdlStatement
  column_rename : Bytes → Bytes → DdlStatement
  column_set_default : Bytes → Bytes → DdlStatement
  column_drop_default : Bytes → DdlStatement
  column_set_not_null : Bytes → DdlStatement
  column_drop_not_null : Bytes → DdlStatement
  table_rename : Bytes → DdlStatement

-- append_stmt_alter_table
unfoldable pub alter_table : Bytes → Bytes → Bytes
unfolding quote_duckdb_identifier
alter_table schema_name table_name =
    codes "USE "
    ++ (quote_duckdb_identifier schema_name
        ++ (codes ";" ++ (codes "ALTER TABLE " ++ quote_duckdb_identifier table_name)))

-- `ALTER COLUMN` with what follows the name.
unfoldable pub alter_column : Bytes → Bytes → Bytes
unfolding quote_duckdb_identifier
alter_column column_name action =
    codes " ALTER COLUMN " ++ (quote_duckdb_identifier column_name ++ (action ++ codes ";"))

unfoldable pub statement_action : DdlStatement → Bytes
unfolding alter_column quote_duckdb_identifier
statement_action (column_add name type none) =
    codes " ADD COLUMN " ++ (quote_duckdb_identifier name ++ (codes " " ++ (type ++ codes ";")))
statement_action (column_add name type (some value)) =
    codes " ADD COLUMN "
    ++ (quote_duckdb_identifier name
        ++ (codes " " ++ (type ++ (codes " DEFAULT " ++ (value ++ codes ";")))))
statement_action (column_drop name) =
    codes " DROP COLUMN " ++ (quote_duckdb_identifier name ++ codes ";")
statement_action (column_change_type name type) =
    alter_column name (codes " SET DATA TYPE " ++ type)
statement_action (column_rename old_name new_name) =
    codes " RENAME COLUMN "
    ++ (quote_duckdb_identifier old_name
        ++ (codes " TO " ++ (quote_duckdb_identifier new_name ++ codes ";")))
statement_action (column_set_default name value) =
    alter_column name (codes " SET DEFAULT " ++ value)
statement_action (column_drop_default name) = alter_column name (codes " DROP DEFAULT")
statement_action (column_set_not_null name) = alter_column name (codes " SET NOT NULL")
statement_action (column_drop_not_null name) = alter_column name (codes " DROP NOT NULL")
statement_action (table_rename name) =
    codes " RENAME TO " ++ (quote_duckdb_identifier name ++ codes ";")

-- What a convertor's translate() writes for its statements.
unfoldable pub ddl_text : Bytes → Bytes → List DdlStatement → Bytes
unfolding alter_table statement_action
ddl_text schema_name table_name [] = []
ddl_text schema_name table_name (st ∷ sts) =
    alter_table schema_name table_name
    ++ (statement_action st ++ ddl_text schema_name table_name sts)
