-- ===== src/Pushdown.antt =====
-- Which SELECT goes to DuckDB, and with what text: ha_duckdb_pushdown.cc.
pub mod Source
pub mod Reading
pub mod Rounds
pub mod Suffix
pub mod Code
pub mod Matches
pub mod Items
pub mod Select
pub mod Fields
pub mod Eligible
