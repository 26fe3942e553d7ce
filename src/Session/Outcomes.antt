-- ===== src/Session/Outcomes.antt =====
-- What the server relies on: the invariant of a session across every call, and what is left
-- pending behind the end of a transaction, a scan and a forwarded statement.
pub mod Batch
pub mod Calls
pub mod Rows
pub mod Pending
pub mod Trace
pub mod Stale
