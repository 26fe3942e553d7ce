-- ===== src/Functions.antt =====
-- The functions that runtime/duckdb_mysql_compat.cc registers with DuckDB, so that a pushed-down
-- query means there what it means to MariaDB.
pub mod Texts
pub mod Digits
pub mod Interval
pub mod Week
