-- ===== src/Convert/Statements.antt =====
-- convertor/dml_convertor.cc: the INSERT, UPDATE and DELETE statements of a row. A text is built by
-- appending to it, as the source does, and by cutting bytes off its end.
pub mod Shape
pub mod Texts
pub mod Rows
use duckdb_engine.Prelude.{
  ℕ, zero, suc, ◌-◌, Bool, true, false, Bytes, codes, ◌++◌, List, [], ◌∷◌, Option, none, some,
  length, if◌then◌else◌,
}
use duckdb_engine.Sql.Quote.{append_quoted_identifier}
use duckdb_engine.Convert.Fields.{Field}
use duckdb_engine.Convert.Values.{field_value}

-- A table as the convertors see it: its DuckDB name, its columns with their values in the new row
-- and in the old row, whether the write set has them, and the columns of its primary key, if any.
pub record Column : Type 0 where
  pub field : Field
  pub old_field : Field
  pub is_written : Bool

pub record Table : Type 0 where
  pub db_name : Bytes
  pub table_name : Bytes
  pub columns : List Column
  pub primary_key : Option (List Column)

-- query.length(n): the first n bytes.
abbrev pub take : ℕ → Bytes → Bytes
take zero s = []
take (suc n) [] = []
take (suc n) (c ∷ s) = c ∷ take n s

-- query.length(query.length() - n)
unfoldable pub chop : ℕ → Bytes → Bytes
chop n s = take (length s - n) s

unfoldable pub append_table_name : Table → Bytes → Bytes
unfolding append_quoted_identifier
append_table_name table query =
    append_quoted_identifier (append_quoted_identifier query table.db_name ++ codes ".")
      table.table_name

unfoldable pub get_write_fields : List Column → List Column
get_write_fields [] = []
get_write_fields (c ∷ cs) = if c.is_written then c ∷ get_write_fields cs else get_write_fields cs

unfoldable pub fill_index_fields_for_where : Table → List Column
fill_index_fields_for_where table = elim table.primary_key [
  | none ↦ table.columns
  | some parts ↦ parts
]

-- The conditions of the WHERE clause, each with its " AND " behind it.
unfoldable pub append_conditions : (Column → Bytes) → List Column → Bytes → Bytes
unfolding append_quoted_identifier
append_conditions value [] query = query
append_conditions value (c ∷ cs) query = append_conditions value cs (
    append_quoted_identifier query c.field.field_name
    ++ (codes " = " ++ (value c ++ codes " AND ")))

unfoldable pub generate_where_clause : (Column → Bytes) → Table → Bytes → Bytes
unfolding fill_index_fields_for_where append_conditions chop
generate_where_clause value table query = elim (fill_index_fields_for_where table) [
  | [] ↦ query
  | c ∷ cs ↦ chop 5 (append_conditions value (c ∷ cs) (query ++ codes " WHERE "))
]

unfoldable pub append_names : List Column → Bytes → Bytes
unfolding append_quoted_identifier
append_names [] query = query
append_names (c ∷ cs) query =
    append_names cs (append_quoted_identifier query c.field.field_name ++ codes ", ")

unfoldable pub append_values : Bool → List Column → Bytes → Bytes
unfolding field_value
append_values use_double [] query = query
append_values use_double (c ∷ cs) query =
    append_values use_double cs (query ++ (field_value use_double c.field ++ codes ", "))

unfoldable pub append_assignments : Bool → List Column → Bytes → Bytes
unfolding append_quoted_identifier field_value
append_assignments use_double [] query = query
append_assignments use_double (c ∷ cs) query = append_assignments use_double cs (
    append_quoted_identifier query c.field.field_name
    ++ (codes " = " ++ (field_value use_double c.field ++ codes ", ")))

-- The column list and the values of an INSERT, over the written columns.
unfoldable pub insert_list : Bool → List Column → Bytes → Bytes
unfolding append_names append_values chop
insert_list use_double fields query =
    let named = elim fields as (λ _. Bytes) [
      | [] ↦ query
      | _ ∷ _ ↦ chop 2 (append_names fields (query ++ codes " (")) ++ codes ")"
    ] in
    chop 2 (append_values use_double fields (named ++ codes " VALUES (")) ++ codes ")"

-- InsertConvertor::generate_fields_and_values
unfoldable pub insert_values : Bool → Table → Bytes → Bytes
unfolding get_write_fields insert_list
insert_values use_double table query = insert_list use_double (get_write_fields table.columns) query

-- UpdateConvertor::generate_fields_and_values
unfoldable pub update_values : Bool → Table → Bytes → Bytes
unfolding get_write_fields append_assignments chop
update_values use_double table query =
    chop 2 (append_assignments use_double (get_write_fields table.columns) query)

-- The column as the WHERE clause reads it: at the old row, if the convertor has one, and then still
-- with the NULL flag of the current row, since only field->ptr is moved.
abbrev pub compared : Bool → Column → Field
compared has_old_row c =
    if has_old_row then record c.old_field { is_null = c.field.is_null } else c.field

abbrev pub where_value : Bool → Bool → Column → Bytes
where_value use_double has_old_row c = field_value use_double (compared has_old_row c)

-- translate() of the three convertors.
unfoldable pub insert_statement : Bool → Table → Bytes
unfolding append_table_name insert_values
insert_statement use_double table =
    insert_values use_double table (append_table_name table (codes "INSERT INTO "))

unfoldable pub update_statement : Bool → Table → Bytes
unfolding append_table_name update_values generate_where_clause
update_statement use_double table =
    generate_where_clause (where_value use_double true) table
      (update_values use_double table (append_table_name table (codes "UPDATE ") ++ codes " SET "))

unfoldable pub delete_statement : Bool → Bool → Table → Bytes
unfolding append_table_name generate_where_clause
delete_statement use_double has_old_row table =
    generate_where_clause (where_value use_double has_old_row) table
      (append_table_name table (codes "DELETE FROM "))
