-- ===== src/Pushdown/Select.antt =====
-- Which SELECT goes to DuckDB: create_duckdb_select_handler and create_duckdb_unit_handler of
-- ha_duckdb_pushdown.cc. What the server's parser says of the statement is a record.
use duckdb_engine.Prelude.{
  ℕ, Bool, true, false, not, ◌&&◌, ◌||◌, Bytes, List, [], ◌∷◌, ◌++◌, Option, none, some, ◌==◌,
  if◌then◌else◌,
}
use duckdb_engine.Pushdown.Items.{
  TableRef, SelectLex, sqlcom_select, sqlcom_insert_select, sqlcom_other, Lex,
  query_has_explicit_system_time, query_references_invisible_fields,
}
use duckdb_engine.Pushdown.Source.{extract_source_query}

-- The loop over the fields, with `found_invisible`.
unfoldable pub layout_from : Bool → Bool → List ℕ → Bool
layout_from allow found [] = true
layout_from allow found (invisible ∷ is) =
    let visible = invisible == 0 in
    let rest = layout_from allow (if visible then found else true) is in
    if visible then (if found then false else rest) else if not allow then false else rest

unfoldable pub has_supported_field_layout : List ℕ → Bool → Bool
unfolding layout_from
has_supported_field_layout fields allow = layout_from allow false fields

-- The loop of can_pushdown_to_duckdb: nothing where it returns early.
unfoldable pub walk_tables : Bool → List TableRef → List Bytes × Bool → Option (List Bytes × Bool)
walk_tables allow [] found = some found
walk_tables allow (t ∷ ts) (external_tables, has_duckdb_table) =
    let skip = t.derived || not t.has_table in
    let external = not skip && not t.is_duckdb in
    let rest = walk_tables allow ts (
      if external then external_tables ++ t.table_name ∷ [] else external_tables,
      if not skip && t.is_duckdb then true else has_duckdb_table,
    ) in
    if external && not (has_supported_field_layout t.fields allow) then none else rest

-- can_pushdown_unit_to_duckdb walks the tables of every SELECT of the unit.
unfoldable pub walk_selects : Bool → List SelectLex → List Bytes × Bool → Option (List Bytes × Bool)
walk_selects allow [] found = some found
walk_selects allow (sl ∷ sls) found = elim (walk_tables allow sl.tables found) [
  | none ↦ none
  | some found' ↦ walk_selects allow sls found'
]

unfoldable pub is_insert_select : Lex → Bool
is_insert_select lex = elim lex.sql_command [
  | sqlcom_insert_select ↦ true
  | sqlcom_select ↦ false
  | sqlcom_other ↦ false
]

unfoldable pub is_other : Lex → Bool
is_other lex = elim lex.sql_command [
  | sqlcom_other ↦ true
  | sqlcom_select ↦ false
  | sqlcom_insert_select ↦ false
]

unfoldable pub is_duckdb_target : List TableRef → Bool
is_duckdb_target [] = true
is_duckdb_target (t ∷ ts) = not t.has_table || t.is_duckdb

unfoldable pub has_duckdb_insert_target : Lex → Bool
has_duckdb_insert_target lex =
    if not (is_insert_select lex) then false else is_duckdb_target lex.query_tables

unfoldable pub has_unsupported_insert_select_clauses : Lex → Bool
has_unsupported_insert_select_clauses lex =
    is_insert_select lex && (lex.dup_update || lex.has_returning)

-- ha_duckdb_select_handler, as its constructor and set_cross_engine leave it.
pub record SelectHandler : Type 0 where
  pub query : Bytes
  pub has_cross_engine : Bool
  pub external_table_names : List Bytes

unfoldable pub set_cross_engine : Bytes → List Bytes → SelectHandler
set_cross_engine query [] = record {
  query = query;
  has_cross_engine = false;
  external_table_names = [];
}
set_cross_engine query (t ∷ ts) = record {
  query = query;
  has_cross_engine = true;
  external_table_names = t ∷ ts;
}

-- From the query on: the tables, and for a SELECT its side effects.
unfoldable pub create_handler :
    Option (List Bytes × Bool) → Bool → Option Bytes → Option SelectHandler
create_handler found uncacheable_sideeffect none = none
create_handler none uncacheable_sideeffect (some query) = none
create_handler (some (external_tables, has_duckdb_table)) uncacheable_sideeffect (some query) =
    if not has_duckdb_table
    then none
    else if uncacheable_sideeffect
    then none
    else some (set_cross_engine query external_tables)

-- The session: its text and SQL mode, the variable cross_engine_ryow, and whether it prepares.
pub record Session : Type 0 where
  pub sql : Bytes
  pub backslash_escapes : Bool
  pub ansi_quotes : Bool
  pub cross_engine_ryow : Bool
  pub is_stmt_prepare : Bool

unfoldable pub create_duckdb_select_handler :
    Session → Lex → Option SelectLex → Option SelectHandler
create_duckdb_select_handler session lex none = none
create_duckdb_select_handler session lex (some sel_lex) =
    if is_other lex
    then none
    else if has_duckdb_insert_target lex
        || (has_unsupported_insert_select_clauses lex
            || (query_has_explicit_system_time lex || query_references_invisible_fields lex))
    then none
    else create_handler (walk_tables (not session.cross_engine_ryow) sel_lex.tables ([], false))
        sel_lex.uncacheable_sideeffect
        (extract_source_query (is_insert_select lex) session.backslash_escapes session.ansi_quotes
          session.sql)

unfoldable pub create_duckdb_unit_handler :
    Session → Lex → Option (List SelectLex) → Option SelectHandler
create_duckdb_unit_handler session lex none = none
create_duckdb_unit_handler session lex (some unit) =
    if is_other lex
      || (has_duckdb_insert_target lex
          || (has_unsupported_insert_select_clauses lex
              || (query_has_explicit_system_time lex || query_references_invisible_fields lex)))
    then none
    else if session.is_stmt_prepare
    then none
    else create_handler (walk_selects (not session.cross_engine_ryow) unit ([], false)) false (
        extract_source_query (is_insert_select lex) session.backslash_escapes session.ansi_quotes
          session.sql)
