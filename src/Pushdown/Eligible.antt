-- ===== src/Pushdown/Eligible.antt =====
-- When a handler is created, and with what.
use duckdb_engine.Prelude.{
  Bool, true, false, not, ◌&&◌, ◌||◌, Bytes, List, [], ◌∷◌, ◌++◌, append_assoc, append-nil, Option,
  none, some, if◌then◌else◌, ◌≡◌, refl, arith,
}
use duckdb_engine.Pushdown.Fields.{any_of, hides_select, was_set, references-eq, has_system_time-eq}
use duckdb_engine.Pushdown.Source.{extract_source_query}
use duckdb_engine.Pushdown.Items.{TableRef, SelectLex, Lex, query_has_explicit_system_time}
use duckdb_engine.Pushdown.Select.{
  has_supported_field_layout, walk_tables, walk_selects, SelectHandler, set_cross_engine,
  create_handler, create_duckdb_select_handler, create_duckdb_unit_handler, Session,
  is_insert_select, is_other, has_duckdb_insert_target, has_unsupported_insert_select_clauses,
}

-- The tables of other engines, those of DuckDB, and whether the scans of the others can be read.
abbrev pub is_base : TableRef → Bool
is_base t = not t.derived && t.has_table

abbrev pub external_names : List TableRef → List Bytes
external_names [] = []
external_names (t ∷ ts) =
    let names = external_names ts in
    if is_base t && not t.is_duckdb then t.table_name ∷ names else names

abbrev pub any_duckdb : List TableRef → Bool
any_duckdb [] = false
any_duckdb (t ∷ ts) = (is_base t && t.is_duckdb) || any_duckdb ts

abbrev pub all_readable : Bool → List TableRef → Bool
all_readable allow [] = true
all_readable allow (t ∷ ts) =
    (not (is_base t && not t.is_duckdb) || has_supported_field_layout t.fields allow)
    && all_readable allow ts

abbrev pub tables_of : List SelectLex → List TableRef
tables_of [] = []
tables_of (sl ∷ sls) = sl.tables ++ tables_of sls

abbrev pub when : Bool → List Bytes → Bool → Option (List Bytes × Bool)
when true names duckdb = some (names, duckdb)
when false names duckdb = none

walk_tables-eq :
    (allow : Bool) (ts : List TableRef) (names : List Bytes) (duckdb : Bool)
    → walk_tables allow ts (names, duckdb)
      ≡ when (all_readable allow ts) (names ++ external_names ts) (duckdb || any_duckdb ts)
unfolding walk_tables
walk_tables-eq allow [] names duckdb = ground (arith, append-nil names)
walk_tables-eq allow (t ∷ ts) names duckdb = ground (
  arith,
  walk_tables-eq allow ts names duckdb,
  walk_tables-eq allow ts names true,
  walk_tables-eq allow ts (names ++ t.table_name ∷ []) duckdb,
  append_assoc names (t.table_name ∷ []) (external_names ts),
)

all_readable-append :
    (allow : Bool) (ts us : List TableRef)
    → all_readable allow (ts ++ us) ≡ (all_readable allow ts && all_readable allow us)
all_readable-append allow [] us = refl
all_readable-append allow (t ∷ ts) us = ground (arith, all_readable-append allow ts us)

any_duckdb-append :
    (ts us : List TableRef) → any_duckdb (ts ++ us) ≡ (any_duckdb ts || any_duckdb us)
any_duckdb-append [] us = refl
any_duckdb-append (t ∷ ts) us = ground (arith, any_duckdb-append ts us)

external_names-append :
    (ts us : List TableRef) → external_names (ts ++ us) ≡ external_names ts ++ external_names us
external_names-append [] us = refl
external_names-append (t ∷ ts) us = ground (arith, external_names-append ts us)

walk_selects-eq :
    (allow : Bool) (sls : List SelectLex) (names : List Bytes) (duckdb : Bool)
    → walk_selects allow sls (names, duckdb)
      ≡ when
          (all_readable allow (tables_of sls))
          (names ++ external_names (tables_of sls))
          (duckdb || any_duckdb (tables_of sls))
unfolding walk_selects
walk_selects-eq allow [] names duckdb = ground (arith, append-nil names)
walk_selects-eq allow (sl ∷ sls) names duckdb = ground (
  arith,
  walk_tables-eq allow sl.tables names duckdb,
  walk_selects-eq allow sls (names ++ external_names sl.tables) (duckdb || any_duckdb sl.tables),
  all_readable-append allow sl.tables (tables_of sls),
  any_duckdb-append sl.tables (tables_of sls),
  external_names-append sl.tables (tables_of sls),
  append_assoc names (external_names sl.tables) (external_names (tables_of sls)),
)

-- A statement whose text DuckDB may run, before its tables are looked at.
abbrev pub eligible : Lex → Bool
eligible lex =
    not (is_other lex)
    && (not (has_duckdb_insert_target lex)
        && (not (has_unsupported_insert_select_clauses lex)
            && (not (any_of was_set lex.query_tables)
                && not (any_of hides_select lex.all_selects))))

-- A handler for tables and a source, if the Boolean says so and there is a source.
abbrev pub created : Bool → List TableRef → Option Bytes → Option SelectHandler
created true ts (some query) = some (set_cross_engine query (external_names ts))
created true ts none = none
created false ts source = none

created-when :
    (allow side_effects : Bool) (ts : List TableRef) (source : Option Bytes)
    → create_handler
        (when (all_readable allow ts) (external_names ts) (any_duckdb ts))
        side_effects
        source
      ≡ created (all_readable allow ts && (any_duckdb ts && not side_effects)) ts source
unfolding create_handler
created-when allow side_effects ts none = ground arith
created-when allow side_effects ts (some query) = ground arith

-- The tests in front, for a SELECT and for a unit.
select_tests :
    (a b c d e rest : Bool) (ts : List TableRef) (source : Option Bytes)
    → (if a then none else if b || (c || (d || e)) then none else created rest ts source)
      ≡ created ((not a && (not b && (not c && (not d && not e)))) && rest) ts source
select_tests a b c d e rest ts source = ground arith

unit_tests :
    (a b c d e prepares rest : Bool) (ts : List TableRef) (source : Option Bytes)
    → (if a || (b || (c || (d || e)))
        then none
        else if prepares
        then none
        else created rest ts source)
      ≡ created
          ((not a && (not b && (not c && (not d && not e)))) && (not prepares && rest))
          ts
          source
unit_tests a b c d e prepares rest ts source = ground arith

and_true : (a b : Bool) → (a && (b && true)) ≡ (a && b)
and_true a b = ground arith

abbrev source_of : Session → Lex → Option Bytes
source_of session lex =
    extract_source_query (is_insert_select lex) session.backslash_escapes session.ansi_quotes
      session.sql

-- A handler is created where, and only where, the statement is a SELECT or an INSERT ... SELECT
-- into another engine's table, with no ON DUPLICATE KEY UPDATE, no RETURNING, no FOR SYSTEM_TIME and
-- no hidden field in its text, where its source is found, and where one of its base tables at least
-- is DuckDB's and all others have a supported layout of fields. It takes the source and the names of
-- exactly those other tables, in their order. A single SELECT must have no side effects, and a unit,
-- whose tables are those of all its SELECTs, must not be prepared only.
pub handlers-created :
    (session : Session) (lex : Lex) (sl : SelectLex) (unit : List SelectLex)
    → let allow = not session.cross_engine_ryow in
      let source =
        extract_source_query
          (is_insert_select lex)
          session.backslash_escapes
          session.ansi_quotes
          session.sql in
      (create_duckdb_select_handler session lex (some sl)
        ≡ created
            (eligible lex
              && (all_readable allow sl.tables
                  && (any_duckdb sl.tables && not sl.uncacheable_sideeffect)))
            sl.tables
            source)
      × (create_duckdb_unit_handler session lex (some unit)
          ≡ created
              (eligible lex
                && (not session.is_stmt_prepare
                    && (all_readable allow (tables_of unit) && any_duckdb (tables_of unit))))
              (tables_of unit)
              source)
unfolding create_duckdb_select_handler create_duckdb_unit_handler query_has_explicit_system_time
handlers-created session lex sl unit = (
  rw
      (
        walk_tables-eq (not session.cross_engine_ryow) sl.tables [] false,
        created-when (not session.cross_engine_ryow) sl.uncacheable_sideeffect sl.tables
            (source_of session lex),
        has_system_time-eq lex.query_tables,
        references-eq lex,
      )
      (select_tests (is_other lex) (has_duckdb_insert_target lex)
        (has_unsupported_insert_select_clauses lex) (any_of was_set lex.query_tables)
        (any_of hides_select lex.all_selects)
        (all_readable (not session.cross_engine_ryow) sl.tables
          && (any_duckdb sl.tables && not sl.uncacheable_sideeffect))
        sl.tables (source_of session lex)),
  rw
      (
        walk_selects-eq (not session.cross_engine_ryow) unit [] false,
        created-when (not session.cross_engine_ryow) false (tables_of unit) (source_of session lex),
        and_true (all_readable (not session.cross_engine_ryow) (tables_of unit))
            (any_duckdb (tables_of unit)),
        has_system_time-eq lex.query_tables,
        references-eq lex,
      )
      (unit_tests (is_other lex) (has_duckdb_insert_target lex)
        (has_unsupported_insert_select_clauses lex) (any_of was_set lex.query_tables)
        (any_of hides_select lex.all_selects) session.is_stmt_prepare
        (all_readable (not session.cross_engine_ryow) (tables_of unit)
          && any_duckdb (tables_of unit))
        (tables_of unit) (source_of session lex)),
)
