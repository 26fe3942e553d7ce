-- ===== src/Ddl.antt =====
-- The DDL of convertor/ddl_convertor.cc, and the calls of ha_duckdb.cc that send it.
pub mod Columns
pub mod Defaults
pub mod Alter
pub mod Change
pub mod Create
pub mod Commit
pub mod Forwarding
