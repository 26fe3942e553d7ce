-- ===== src/Sql/Quote/Sequence.antt =====
-- convertor/ddl_convertor.cc: autoinc_sequence_name, autoinc_nextval_expr; ha_duckdb.cc: the query
-- of reserve_autoinc_block. Both nest quoted identifiers in a string literal.
use duckdb_engine.Prelude.{◌∷◌, ◌++◌, Bytes, codes}
use duckdb_engine.Sql.Quote.{double, quote_duckdb_identifier}

unfoldable pub autoinc_sequence_name : Bytes → Bytes
autoinc_sequence_name table = codes "mdb_autoinc_" ++ table

-- "schema"."mdb_autoinc_table"
unfoldable pub qualified_sequence : Bytes → Bytes → Bytes
unfolding autoinc_sequence_name quote_duckdb_identifier
qualified_sequence schema table =
    quote_duckdb_identifier schema ++ (b'.' ∷ quote_duckdb_identifier (autoinc_sequence_name table))

-- The default of the column in DuckDB.
unfoldable pub autoinc_nextval_expr : Bytes → Bytes → Bytes
unfolding qualified_sequence double
autoinc_nextval_expr schema table =
    codes "nextval('" ++ (double b'\'' (qualified_sequence schema table) ++ codes "')")

-- The query that takes a block of ids; `want` is the printed number.
unfoldable pub reserve_query : Bytes → Bytes → Bytes → Bytes
unfolding qualified_sequence double
reserve_query schema table want =
    codes "SELECT min(x), max(x) FROM (SELECT nextval('"
    ++ (double b'\'' (qualified_sequence schema table)
        ++ (codes "') AS x FROM range(" ++ (want ++ codes ")) t")))
