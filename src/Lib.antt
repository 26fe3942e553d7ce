-- ===== src/Lib.antt =====
-- A verification library for the DuckDB storage engine of MariaDB.
--
-- The engine stores its tables in DuckDB. A handler (ha_duckdb.cc) turns the server's row, scan and
-- table calls into rows of DuckDB appenders or into SQL text; a context per session
-- (runtime/duckdb_context.h) owns the connection, the batch state and the appenders
-- (runtime/delta_appender.cc); the ids of AUTO_INCREMENT columns come from a cache that all sessions
-- of a table share. Every text that reaches DuckDB passes runtime/duckdb_query.cc.
--
-- The files, each with its children:
--   Prelude   names of the libraries, Boolean tests and lists over native numbers.
--   Sql       Region: scan_sql_region, which scans quotes and comments; its children Shape and Found
--             are the rules of strings and comments. Quote: the routines that quote identifiers and
--             literals, in common/duckdb_types.cc, convertor/dml_convertor.cc,
--             convertor/ddl_convertor.cc, runtime/fiber_scan.cc and ha_duckdb.cc. Rewrite:
--             backticks_to_double_quotes. Forward: mariadb_query_has_unsafe_quote_escape. A text is
--             the list of its bytes. How DuckDB itself reads a text is outside of the source.
--   Convert   Fields: what the server says of a column and its value. Types:
--             FieldConvertor::convert_type (convertor/ddl_convertor.cc), field_to_logical_type
--             (runtime/cross_engine_scan.cc) and get_duckdb_collation
--             (common/duckdb_charset_collation.cc). Values and Statements:
--             convertor/dml_convertor.cc and .h. Paths: DatabaseTableNames and Databasename
--             (common/duckdb_types.cc).
--   AutoInc   Duckdb_share::Autoinc_range, reserve_autoinc_block and get_auto_increment. The state is
--             the share; a step is one load, compare-and-swap, lock, unlock, query or store of one
--             thread, so every interleaving is a sequence of steps.
--   Delta     class DeltaAppender: the buffered rows, and what flush() does to the table.
--   Session   State: the context of a session, over an environment that answers for DuckDB.
--             Appenders: DeltaAppenders and the rest of DeltaAppender. Context: DuckdbThdContext.
--             Handlers: the calls of the handlerton and the handler. Invariant and Outcomes: what
--             they keep and what they leave.
--   Ddl       convertor/ddl_convertor.cc. Columns: the statements of an ALTER TABLE and their texts.
--             Defaults: the default of a column, as the server keeps it. Alter and Change: the
--             convertors of ALTER TABLE. Create: FieldConvertor and CreateTableConvertor. Commit:
--             commit_inplace_alter_table and check_if_supported_inplace_alter (ha_duckdb.cc).
--             Forwarding: what the convertors never send.
--   Functions the functions of MariaDB that DuckDB gets (runtime/duckdb_mysql_compat.cc). Texts: LENGTH,
--             ASCII, ORD, LOCATE, LTRIM, RTRIM and JSON_UNQUOTE. Digits: HEX, OCT and BIN. Week: WEEK,
--             YEARWEEK, TO_DAYS, WEEKDAY and DAYOFWEEK. Interval: ADDTIME and SUBTIME.
--   Pushdown  ha_duckdb_pushdown.cc. Source, Reading, Rounds and Suffix: extract_source_query. Items:
--             what the server's parser says of a statement, and the walks over it. Select: the
--             factories of the SELECT and unit handlers. Fields and Eligible: for which statements
--             they create one. Code and Matches: find_in_code, the search for a pattern outside of
--             strings and comments.
--   Settings  config_duckdb_session and config_duckdb_env (runtime/duckdb_context.cc): the session
--             variables that are sent to DuckDB, and the members that remember them.
--   Scan      select_to_duckdb and fiber_scan_func (runtime/fiber_scan.cc) and mdb_scan_function
--             (runtime/cross_engine_scan.cc): the chunks that DuckDB gets of another engine's table.
--             The server's SELECT is its rows and how it ends.
--   Tests     the theorems at concrete inputs.
--
-- State and failure. A call of a session is a function from the context to the new context and a
-- Boolean, which is true for an error code or an exception. DuckDB is a parameter: a record of
-- functions that say how a connection answers, of which nothing is assumed. The sequence of a table
-- enters AutoInc by what DuckDB documents: ids grow and are BIGINTs. A row is its primary key, as one
-- number, and its other columns, as any value; a table is the list of its rows. Tables are numbered.
--
-- Bounds. The rewriting and the check of a statement are loops over positions; here they are
-- recursions on fuel, and the length of the text is enough, since every round takes a byte. The
-- retries of reserve_autoinc_block are the three of the source. Words of 64 bits
-- wrap around. DuckDB drains a scan on fuel: one call more than there are rows is enough, whatever the
-- size of a chunk.
--
-- The dates of DuckDB are a parameter, of which Week/Days takes the documented Gregorian calendar: a
-- function that takes a day number apart, whose value at 0001-01-01 and step to the next day are
-- hypotheses, and the ISO weekday. The counting of leading zeros in Digits is another one, with what
-- it counts as the hypothesis. In Ddl, the collation of the server is a function that tells whether
-- two defaults are the same, and DuckDB a function that refuses queries, of which nothing is assumed.
-- An interval has no result where the source's `int` or `int64_t` overflows, which C++ leaves open.
-- The week of a date is taken for the years that DuckDB's Date::Convert gives as they are, from 1 on.
-- LTRIM, RTRIM, the reading of a table's expressions and the search for the source of a SELECT are
-- recursions on fuel, for which the length of the text is enough.
--
-- Not modelled: DuckDB and the server themselves; logging; the printing of single field values by
-- the server; the rewriting of a pushed-down SELECT (init_scan, ha_duckdb_pushdown.cc) and the set-up of a scan over another
-- engine's table; the conversion of results (convertor/duckdb_select.cc); the start of DuckDB and its
-- configuration; the functions on regular expressions, which are RE2's, and the digits of 128-bit
-- integers; runtime/fiber_context.cpp, which is a copy of the client library's and switches stacks.
pub mod Prelude
pub mod Sql
pub mod Convert
pub mod AutoInc
pub mod Delta
pub mod Session
pub mod Settings
pub mod Scan
pub mod Ddl
pub mod Functions
pub mod Pushdown
pub mod Tests
