-- ===== src/Ddl/Commit.antt =====
-- ha_duckdb::check_if_supported_inplace_alter and ha_duckdb::commit_inplace_alter_table of
-- ha_duckdb.cc. DuckDB is a parameter: whether it refuses a query behind the queries before it.
pub mod Atomic
use duckdb_engine.Prelude.{
  ℕ, Bool, true, false, not, ◌&&◌, ◌||◌, Bytes, [], ◌∷◌, ◌++◌, List, Option, none, some, map,
  if◌then◌else◌,
}
use duckdb_engine.Ddl.Columns.{Column, DdlStatement, ddl_text, same_name}
use duckdb_engine.Ddl.Alter.{
  CreateField, AlterDrop, columns_to_add, add_columns, columns_to_drop, drop_check, drop_columns,
  change_defaults,
}
use duckdb_engine.Ddl.Change.{changed_columns, change_columns, primary_key_columns}
use duckdb_engine.Ddl.Create.{DdlError, field_check, DdlContext, alter}

pub data InplaceResult : Type 0 where
  not_supported inplace_error no_lock : InplaceResult

-- `has_primary_key` is that the old table's primary_key is not MAX_KEY.
unfoldable pub check_if_supported_inplace_alter :
    Bytes → Bytes → Bool → Bool → Bool → Bool → InplaceResult
unfolding same_name
check_if_supported_inplace_alter old_schema new_schema column_order error_if_not_empty
      require_primary_key has_primary_key =
    if not (same_name old_schema new_schema)
    then not_supported
    else if column_order
    then not_supported
    else if error_if_not_empty
    then not_supported
    else if require_primary_key && not has_primary_key
    then inplace_error
    else no_lock

-- What the server tells of the ALTER TABLE.
pub record AlterInfo : Type 0 where
  pub add_column : Bool
  pub drop_column : Bool
  pub change_column : Bool
  pub column_name : Bool
  pub change_column_default : Bool
  pub add_index : Bool
  pub create_list : List CreateField
  pub drop_list : List AlterDrop
  pub old_table : List Column
  pub new_table : List Column

unfoldable pub check_columns : List Column → Bool
check_columns [] = false
check_columns (c ∷ cs) = elim (field_check c alter) [ none ↦ check_columns cs | some e ↦ true ]

abbrev pub found_columns : List (CreateField × Option Column) → List Column
found_columns [] = []
found_columns ((f, none) ∷ ps) = found_columns ps
found_columns ((f, some c) ∷ ps) = c ∷ found_columns ps

-- A convertor: what its check() and its translate() give.
abbrev pub Convertor : Type 0
Convertor = Bool × List DdlStatement

abbrev pub when : Bool → Convertor → List Convertor
when true c = c ∷ []
when false c = []

unfoldable pub alter_convertors : (Bytes → Bytes → Bool) → Bool → Bool → AlterInfo → List Convertor
alter_convertors same_value use_double require_primary_key info =
    let added = columns_to_add info.new_table info.create_list in
    let dropped = columns_to_drop info.drop_list info.old_table info.new_table info.create_list in
    let changed = changed_columns info.new_table info.create_list in
    when info.add_column
      (check_columns (map (λ (p : CreateField × Column). p.1) added), add_columns use_double added)
    ++ (when info.drop_column (drop_check require_primary_key dropped, drop_columns dropped)
        ++ (when (info.change_column || info.column_name)
              (check_columns (found_columns changed), change_columns use_double changed)
            ++ (when info.change_column_default
                  (false, change_defaults same_value info.old_table info.new_table)
                ++ when info.add_index (false, primary_key_columns info.new_table))))

-- The texts to execute, unless a check fails. A convertor with no statement adds no text.
unfoldable pub add_text : Bytes → Bytes → List DdlStatement → List Bytes → List Bytes
add_text schema_name table_name [] texts = texts
add_text schema_name table_name (st ∷ sts) texts =
    ddl_text schema_name table_name (st ∷ sts) ∷ texts

unfoldable pub collect : Bytes → Bytes → List Convertor → Option (List Bytes)
unfolding add_text
collect schema_name table_name [] = some []
collect schema_name table_name ((failed, sts) ∷ cs) =
    let rest = collect schema_name table_name cs in
    if failed
    then none
    else elim rest [ none ↦ none | some texts ↦ some (add_text schema_name table_name sts texts) ]

-- The queries on the dedicated connection, each with whether DuckDB refused it.
pub data Query : Type 0 where
  begin commit rollback : Query
  statement : Bytes → Query

abbrev pub Log : Type 0
Log = List (Query × Bool)

-- DuckDB: whether it refuses a query, and whether a transaction is active.
module _ (refuses : Log → Query → Bool) (has_active_transaction : Log → Bool) where
  -- The log with one more query, and whether it was refused.
  unfoldable pub run_query : Log → Query → Log × Bool
  run_query log q = (log ++ (q, refuses log q) ∷ [], refuses log q)

  unfoldable pub finish : Log → Bool × Log
  finish log =
      let (log', error) = run_query log commit in
      if not error
      then (false, log')
      else if has_active_transaction log'
      then (true, (run_query log' rollback).0)
      else (true, log')

  unfoldable pub execute_statements : List Bytes → Log → Bool × Log
  execute_statements [] log = finish log
  execute_statements (sql ∷ sqls) log =
      let (log', error) = run_query log (statement sql) in
      let rest = execute_statements sqls log' in
      if error then (true, (run_query log' rollback).0) else rest

  unfoldable pub execute_alter : List Bytes → Bool × Log
  execute_alter [] = (false, [])
  execute_alter (sql ∷ sqls) =
      let (log, error) = run_query [] begin in
      if error then (true, log) else execute_statements (sql ∷ sqls) log

  -- True is an error. `register_fails` is the answer of duckdb_register_trx.
  unfoldable pub commit_inplace_alter_table :
      Bool → Bool → Bytes → Bytes → List Convertor → Bool × Log
  commit_inplace_alter_table commits register_fails schema_name table_name convertors =
      if not commits
      then (false, [])
      else if register_fails
      then (true, [])
      else elim (collect schema_name table_name convertors) [
        | none ↦ (true, [])
        | some texts ↦ execute_alter texts
      ]
