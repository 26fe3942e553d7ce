-- ===== src/Tests/Pushdowns.antt =====
-- Statements as the factories of the pushdown meet them.
use duckdb_engine.Prelude.{true, false, not, ◌&&◌, [], ◌∷◌, codes, some, none, ◌≡◌, refl}
use duckdb_engine.Sql.Forward.{mariadb_query_has_unsafe_quote_escape}
use duckdb_engine.Pushdown.Code.{
  skip_block, skipped, ci_starts_with, find_from, find_in_code, rfind_in_code,
}
use duckdb_engine.Pushdown.Source.{extract_source_query}
use duckdb_engine.Pushdown.Suffix.{IsSource, extract_source_query-IsSource}
use duckdb_engine.Pushdown.Items.{TableRef, SelectLex, sqlcom_insert_select, Lex}
use duckdb_engine.Pushdown.Select.{
  Session, create_duckdb_select_handler, create_duckdb_unit_handler, is_insert_select,
}
use duckdb_engine.Pushdown.Eligible.{
  eligible, created, all_readable, any_duckdb, tables_of, handlers-created,
}

-- Tables of DuckDB and of another engine, the second with a hidden field at its end.
abbrev sales : TableRef
sales = record {
  derived = false;
  has_table = true;
  is_duckdb = true;
  vers_was_set = false;
  fields = 0 ∷ [];
  table_name = codes "sales";
}

abbrev people : TableRef
people = record {
  derived = false;
  has_table = true;
  is_duckdb = false;
  vers_was_set = false;
  fields = 0 ∷ 2 ∷ [];
  table_name = codes "people";
}

abbrev join : SelectLex
join = record {
  item_list = (record { has_field = true; invisible = 0; implicit_versioning = false } ∷ []) ∷ [];
  where_cond = none;
  having_cond = none;
  group_list = [];
  order_list = [];
  window_specs = [];
  on_exprs = [];
  tables = sales ∷ people ∷ [];
  uncacheable_sideeffect = false;
}

abbrev insert_join : Lex
insert_join = record {
  sql_command = sqlcom_insert_select;
  query_tables = people ∷ sales ∷ people ∷ [];
  dup_update = false;
  has_returning = false;
  all_selects = join ∷ [];
}

abbrev client : Session
client = record {
  sql = codes "INSERT INTO p (a) SELECT 1";
  backslash_escapes = false;
  ansi_quotes = false;
  cross_engine_ryow = false;
  is_stmt_prepare = false;
}

handlers-created_example :
    let source =
      extract_source_query
        (is_insert_select insert_join)
        client.backslash_escapes
        client.ansi_quotes
        client.sql in
    (create_duckdb_select_handler client insert_join (some join)
      ≡ created
          (eligible insert_join
            && (all_readable (not client.cross_engine_ryow) join.tables
                && (any_duckdb join.tables && not join.uncacheable_sideeffect)))
          join.tables
          source)
    × (create_duckdb_unit_handler client insert_join (some (join ∷ []))
        ≡ created
            (eligible insert_join
              && (not client.is_stmt_prepare
                  && (all_readable (not client.cross_engine_ryow) (tables_of (join ∷ []))
                      && any_duckdb (tables_of (join ∷ [])))))
            (tables_of (join ∷ []))
            source)
handlers-created_example = handlers-created client insert_join join (join ∷ [])

extract_source_query-IsSource_example :
    IsSource true true
      (mariadb_query_has_unsafe_quote_escape true false (codes "INSERT INTO t (a) SELECT 1"))
      (codes "INSERT INTO t (a) SELECT 1")
      (extract_source_query true true false (codes "INSERT INTO t (a) SELECT 1"))
extract_source_query-IsSource_example =
    extract_source_query-IsSource true true false (codes "INSERT INTO t (a) SELECT 1")

-- The word in the comment is passed over, and the case of the other one does not matter.
limit_position : find_in_code (codes "/* LIMIT */ limit 2") (codes "LIMIT ") 0 ≡ some 12
unfolding find_in_code find_from skipped skip_block ci_starts_with
limit_position = refl

last_position : rfind_in_code (codes "a /* a */ a") (codes "a") 9 ≡ some 0
unfolding rfind_in_code find_in_code find_from skipped skip_block ci_starts_with
last_position = refl
