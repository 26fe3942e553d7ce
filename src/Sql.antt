-- ===== src/Sql.antt =====
-- SQL text on its way to DuckDB: identifier quoting (common/duckdb_types.cc, runtime/fiber_scan.cc),
-- the region scanner, the check of forwarded statements and the identifier rewriting
-- (runtime/duckdb_query.cc).
pub mod Region
pub mod Quote
pub mod Rewrite
pub mod Forward
