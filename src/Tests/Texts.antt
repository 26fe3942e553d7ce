-- ===== src/Tests/Texts.antt =====
-- Statements as the text routines meet them.
use duckdb_engine.Prelude.{false, ◌∷◌, ◌++◌, some, Bytes, codes, ◌≡◌, arith}
use duckdb_engine.Sql.Region.{quoted, scan_sql_region, backtick}
use duckdb_engine.Sql.Quote.{double, enclose, quote_duckdb_identifier, undouble}
use duckdb_engine.Sql.Quote.Sequence.{
  autoinc_nextval_expr, qualified_sequence, autoinc_sequence_name,
}
use duckdb_engine.Sql.Quote.RoundTrip.{nextval_literal}
use duckdb_engine.Sql.Rewrite.{backticks_to_double_quotes, emit}
use duckdb_engine.Sql.Rewrite.Total.{rewrite_total}
use duckdb_engine.Sql.Rewrite.Identifiers.{rewrite-backticked, rewrite-quote_duckdb_identifier}

abbrev statement : Bytes
statement = codes "UPDATE `t` SET a = 'it''s' -- x"

abbrev comment_first : Bytes
comment_first = codes "/* `a` */ DELETE FROM `t`"

rewrite_total_example : (out : Bytes) × (backticks_to_double_quotes statement ≡ some out)
rewrite_total_example = rewrite_total statement

rewrite-backticked_example :
    backticks_to_double_quotes (enclose backtick (codes "a`b\"c") ++ codes " = 1")
    ≡ emit (backticks_to_double_quotes (codes " = 1")) (quote_duckdb_identifier (codes "a`b\"c"))
rewrite-backticked_example = rewrite-backticked (codes "a`b\"c") (codes " = 1") (ground arith)

rewrite-quote_duckdb_identifier_example :
    backticks_to_double_quotes (quote_duckdb_identifier (codes "a`b\"c") ++ codes " = 1")
    ≡ emit (backticks_to_double_quotes (codes " = 1")) (quote_duckdb_identifier (codes "a`b\"c"))
rewrite-quote_duckdb_identifier_example =
    rewrite-quote_duckdb_identifier (codes "a`b\"c") (codes " = 1") (ground arith)

abbrev shop : Bytes
shop = codes "sh'op"

abbrev items : Bytes
items = codes "it\"ems"

nextval_literal_example :
    (autoinc_nextval_expr shop items
      ≡ codes "nextval(" ++ (enclose b'\'' (qualified_sequence shop items) ++ codes ")"))
    × (scan_sql_region false (enclose b'\'' (qualified_sequence shop items) ++ codes ")") ≡ record {
      region = quoted;
      text = enclose b'\'' (qualified_sequence shop items);
      rest = codes ")";
    })
    × (undouble b'\'' (double b'\'' (qualified_sequence shop items))
        ≡ qualified_sequence shop items)
    × (scan_sql_region false (qualified_sequence shop items) ≡ record {
      region = quoted;
      text = quote_duckdb_identifier shop;
      rest = b'.' ∷ quote_duckdb_identifier (autoinc_sequence_name items);
    })
nextval_literal_example = nextval_literal shop items
