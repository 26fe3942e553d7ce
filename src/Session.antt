-- ===== src/Session.antt =====
-- A connection's state: class DuckdbThdContext (runtime/duckdb_context.h and .cc) with its
-- DeltaAppenders (runtime/delta_appender.cc), and the handlerton and handler calls of ha_duckdb.cc
-- that change it.
pub mod State
pub mod Appenders
pub mod Context
pub mod Handlers
pub mod Invariant
pub mod Outcomes
