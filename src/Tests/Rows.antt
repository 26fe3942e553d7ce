-- ===== src/Tests/Rows.antt =====
-- A table of two columns: a name, which is the primary key, and an optional note.
use duckdb_engine.Prelude.{
  Bool, true, false, Bytes, codes, ◌++◌, [], ◌∷◌, map, none, some, ◌≡◌, ◌≢◌, inl, inr, refl,
}
use duckdb_engine.Convert.Fields.{type_varchar, type_newdecimal, Charset, MysqlTime, Field}
use duckdb_engine.Convert.Types.{convert_type, field_to_logical_type}
use duckdb_engine.Convert.Types.Agreement.{type_name, collate, types-agree}
use duckdb_engine.Convert.Values.{value_text}
use duckdb_engine.Convert.Statements.{
  generate_where_clause, Column, Table, fill_index_fields_for_where, get_write_fields,
  insert_statement, update_statement, where_value,
}
use duckdb_engine.Convert.Statements.Texts.{insert_statement-shape, update_statement-shape}
use duckdb_engine.Convert.Statements.Shape.{
  join, name_of, value_of, assignment, where_clause, qualified_name,
}
use duckdb_engine.Convert.Statements.Rows.{
  Value, Condition, yes, conditions, clause_text, column_name, telling, selects, conditions-own_row,
  conditions-null_row,
}
use duckdb_engine.Convert.Paths.{database_table_names}
use duckdb_engine.Convert.Paths.Parts.{named, database_table_names-parts}

abbrev utf8 : Charset
utf8 = record {
  cs_name = codes "utf8mb4";
  is_binsort = false;
  is_lower_sort = false;
  secondary_level = false;
  tertiary_level = false;
}

abbrev noon : MysqlTime
noon = record { neg = false; hour = 12; minute = 0; second = 0; second_part = 0 }

abbrev name_field : Field
name_field = record {
  field_name = codes "na\"me";
  real_type = type_varchar;
  is_uuid = false;
  is_unsigned = false;
  has_charset = true;
  charset = utf8;
  precision = 0;
  dec = 0;
  is_null = false;
  val_str = codes "it's";
  val_scientific = [];
  val_decimal = [];
  get_date = noon;
}

abbrev note_field : Field
note_field = record name_field {
  field_name = codes "note";
  has_charset = false;
  val_str = codes "x";
}

abbrev no_note : Field
no_note = record note_field { is_null = true }

abbrev price_field : Field
price_field = record name_field {
  real_type = type_newdecimal;
  precision = 12;
  dec = 2;
  val_decimal = codes "0000000001.50";
}

abbrev column : Field → Bool → Column
column f written = record { field = f; old_field = f; is_written = written }

abbrev items : Table
items = record {
  db_name = codes "shop";
  table_name = codes "items";
  columns = column name_field true ∷ column note_field true ∷ [];
  primary_key = some (column name_field true ∷ []);
}

-- The same table without a primary key, and with no note in its row.
abbrev notes : Table
notes = record items {
  columns = column name_field false ∷ column no_note false ∷ [];
  primary_key = none;
}

types-agree_example :
    convert_type false price_field
    ≡ type_name (field_to_logical_type price_field)
      ++ collate price_field (field_to_logical_type price_field)
types-agree_example = types-agree false price_field (refl, refl)

insert_statement-shape_example :
    insert_statement false items
    ≡ codes "INSERT INTO "
      ++ (qualified_name items
          ++ (codes " ("
              ++ (join (codes ", ") (map name_of items.columns)
                  ++ (codes ") VALUES ("
                      ++ (join (codes ", ") (map (value_of false) items.columns) ++ codes ")")))))
unfolding get_write_fields
insert_statement-shape_example =
    insert_statement-shape false items (column name_field true) (column note_field true ∷ []) refl

update_statement-shape_example :
    update_statement false items
    ≡ codes "UPDATE "
      ++ (qualified_name items
          ++ (codes " SET "
              ++ (join (codes ", ") (map (assignment false) items.columns)
                  ++ where_clause (where_value false true) (fill_index_fields_for_where items))))
unfolding get_write_fields
update_statement-shape_example =
    update_statement-shape false items (column name_field true) (column note_field true ∷ []) refl

abbrev stored : Bytes → Value
stored name = some (value_text false name_field type_varchar)

conditions-own_row_example :
    (generate_where_clause (where_value false true) items (codes "UPDATE t SET a = 1")
      ≡ codes "UPDATE t SET a = 1" ++ clause_text (conditions false true (telling items)))
    × (map (λ (p : Condition). p.0) (conditions false true (telling items))
        ≡ map column_name (telling items))
    × (selects (conditions false true (telling items)) stored ≡ yes)
conditions-own_row_example =
    conditions-own_row false true items stored (codes "UPDATE t SET a = 1") (refl, tt)
      ((refl, refl), tt)

-- The stored row of the table without a primary key, whose note is about to become NULL.
abbrev forgotten : Table
forgotten = record notes {
  columns = record (column no_note true) { old_field = record note_field { is_null = false } } ∷ [];
}

abbrev noted : Bytes → Value
noted name = some (value_text false note_field type_varchar)

conditions-null_row_example :
    (generate_where_clause (where_value false true) forgotten (codes "UPDATE t SET a = 1")
      ≡ codes "UPDATE t SET a = 1" ++ clause_text (conditions false true (telling forgotten)))
    × (selects (conditions false true (telling forgotten)) noted ≢ yes)
conditions-null_row_example =
    conditions-null_row false true forgotten noted (codes "UPDATE t SET a = 1") (refl, tt)
      (inl (inr refl))

abbrev keep : Bytes → Bytes
keep s = s

database_table_names-parts_example :
    database_table_names keep (codes "./" ++ (codes "shop" ++ (codes "/" ++ codes "items")))
    ≡ named keep (codes "shop") (codes "items")
database_table_names-parts_example =
    database_table_names-parts keep (codes "./") (codes "hop") [] (codes "items") b's' b'/' refl
      (refl, (refl, (refl, (refl, tt)))) (refl, tt) (refl, (refl, (refl, (refl, (refl, tt)))))
