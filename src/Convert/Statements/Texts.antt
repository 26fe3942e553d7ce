-- ===== src/Convert/Statements/Texts.antt =====
-- The INSERT, UPDATE and DELETE statements of a row, written out.
use duckdb_engine.Prelude.{
  Bool, true, Bytes, codes, ◌++◌, List, [], ◌∷◌, map, ◌≡◌, sym, ap, ◌∙◌, append_assoc,
}
use duckdb_engine.Convert.Statements.{
  Column, Table, chop, append_table_name, get_write_fields, fill_index_fields_for_where,
  generate_where_clause, append_names, append_values, append_assignments, insert_list,
  insert_values, update_values, where_value, insert_statement, update_statement, delete_statement,
}
use duckdb_engine.Convert.Statements.Shape.{
  join, name_of, value_of, assignment, qualified_name, where_clause, append_names-eq,
  append_values-eq, append_assignments-eq, append_table_name-eq, where_columns-eq, chop-ended,
  chop-append,
}

-- A DELETE is the table's name and its WHERE clause: the conditions, one for each column of the
-- primary key or for each column of the table, are joined by AND.
pub delete_statement-shape :
    (use_double has_old_row : Bool) (table : Table)
    → delete_statement use_double has_old_row table
      ≡ codes "DELETE FROM "
        ++ (qualified_name table
            ++ where_clause
                (where_value use_double has_old_row)
                (fill_index_fields_for_where table))
unfolding delete_statement generate_where_clause
delete_statement-shape use_double has_old_row table =
    let value = where_value use_double has_old_row in
    where_columns-eq value (fill_index_fields_for_where table)
      (append_table_name table (codes "DELETE FROM "))
    ∙ ap (λ t. t ++ where_clause value (fill_index_fields_for_where table))
        (append_table_name-eq table (codes "DELETE FROM "))
    ∙ append_assoc (codes "DELETE FROM ") (qualified_name table)
        (where_clause value (fill_index_fields_for_where table))

-- An UPDATE assigns every written column, if there is one, and has the same WHERE clause over the old
-- row.
pub update_statement-shape :
    (use_double : Bool) (table : Table) (c : Column) (cs : List Column)
    → get_write_fields table.columns ≡ c ∷ cs
    → update_statement use_double table
      ≡ codes "UPDATE "
        ++ (qualified_name table
            ++ (codes " SET "
                ++ (join (codes ", ") (map (assignment use_double) (c ∷ cs))
                    ++ where_clause
                        (where_value use_double true)
                        (fill_index_fields_for_where table))))
unfolding update_statement generate_where_clause update_values
update_statement-shape use_double table c cs written =
    let value = where_value use_double true in
    let where_part = where_clause value (fill_index_fields_for_where table) in
    let list = join (codes ", ") (map (assignment use_double) (c ∷ cs)) in
    let start = append_table_name table (codes "UPDATE ") ++ codes " SET " in
    let values : update_values use_double table start ≡ start ++ list =
      ap (λ fields. chop 2 (append_assignments use_double fields start)) written
      ∙ ap (chop 2) (append_assignments-eq use_double (c ∷ cs) start)
      ∙ chop-ended (codes ", ") start (assignment use_double c) (map (assignment use_double) cs) in
    where_columns-eq value (fill_index_fields_for_where table)
      (update_values use_double table start)
    ∙ ap (λ t. t ++ where_part) values
    ∙ ap (λ t. ((t ++ codes " SET ") ++ list) ++ where_part)
        (append_table_name-eq table (codes "UPDATE "))
    ∙ append_assoc ((codes "UPDATE " ++ qualified_name table) ++ codes " SET ") list where_part
    ∙ append_assoc (codes "UPDATE " ++ qualified_name table) (codes " SET ") (list ++ where_part)
    ∙ append_assoc (codes "UPDATE ") (qualified_name table) (codes " SET " ++ (list ++ where_part))

insert_list-eq :
    (use_double : Bool) (c : Column) (cs : List Column) (q : Bytes)
    → insert_list use_double (c ∷ cs) q
      ≡ (((((q ++ codes " (") ++ join (codes ", ") (map name_of (c ∷ cs))) ++ codes ")")
            ++ codes " VALUES (")
          ++ join (codes ", ") (map (value_of use_double) (c ∷ cs)))
        ++ codes ")"
unfolding insert_list
insert_list-eq use_double c cs q =
    let open_list = q ++ codes " (" in
    let named : chop 2 (append_names (c ∷ cs) open_list)
        ≡ open_list ++ join (codes ", ") (map name_of (c ∷ cs)) =
      ap (chop 2) (append_names-eq (c ∷ cs) open_list)
      ∙ chop-ended (codes ", ") open_list (name_of c) (map name_of cs) in
    let start =
      (open_list ++ join (codes ", ") (map name_of (c ∷ cs))) ++ codes ")" ++ codes " VALUES (" in
    ap
      (λ t.
        chop 2 (append_values use_double (c ∷ cs) ((t ++ codes ")") ++ codes " VALUES ("))
        ++ codes ")")
      named
    ∙ ap (λ t. chop 2 t ++ codes ")") (append_values-eq use_double (c ∷ cs) start)
    ∙ ap (λ t. t ++ codes ")")
        (chop-ended (codes ", ") start (value_of use_double c) (map (value_of use_double) cs))

-- An INSERT with at least one written column names the written columns and gives their values in the
-- same order.
pub insert_statement-shape :
    (use_double : Bool) (table : Table) (c : Column) (cs : List Column)
    → get_write_fields table.columns ≡ c ∷ cs
    → insert_statement use_double table
      ≡ codes "INSERT INTO "
        ++ (qualified_name table
            ++ (codes " ("
                ++ (join (codes ", ") (map name_of (c ∷ cs))
                    ++ (codes ") VALUES ("
                        ++ (join (codes ", ") (map (value_of use_double) (c ∷ cs)) ++ codes ")")))))
unfolding insert_statement insert_values
insert_statement-shape use_double table c cs written =
    let names = join (codes ", ") (map name_of (c ∷ cs)) in
    let values = join (codes ", ") (map (value_of use_double) (c ∷ cs)) in
    ap (λ fields. insert_list use_double fields (append_table_name table (codes "INSERT INTO ")))
      written
    ∙ insert_list-eq use_double c cs (append_table_name table (codes "INSERT INTO "))
    ∙ ap
        (λ t.
          (((((t ++ codes " (") ++ names) ++ codes ")") ++ codes " VALUES (") ++ values)
          ++ codes ")")
        (append_table_name-eq table (codes "INSERT INTO "))
    ∙ simp append_assoc

-- Without a written column the INSERT names none, and its list of values has no opening parenthesis:
-- the two bytes that are cut off are no separator.
pub insert_statement-empty :
    (use_double : Bool) (table : Table)
    → get_write_fields table.columns ≡ []
    → insert_statement use_double table
      ≡ codes "INSERT INTO " ++ (qualified_name table ++ codes " VALUES)")
unfolding insert_statement insert_values insert_list append_values
insert_statement-empty use_double table none_written =
    let start = append_table_name table (codes "INSERT INTO ") in
    ap (λ fields. insert_list use_double fields start) none_written
    ∙ ap (λ t. chop 2 t ++ codes ")") (sym (append_assoc start (codes " VALUES") (codes " (")))
    ∙ ap (λ t. t ++ codes ")") (chop-append (start ++ codes " VALUES") (codes " ("))
    ∙ ap (λ t. (t ++ codes " VALUES") ++ codes ")")
        (append_table_name-eq table (codes "INSERT INTO "))
    ∙ simp append_assoc
