-- ===== src/Tests.antt =====
-- The theorems at concrete inputs: statements, shares, buffers and sessions as the code meets them.
pub mod Texts
pub mod Ids
pub mod Buffers
pub mod Sessions
pub mod Rows
pub mod Variables
pub mod Scans
pub mod Dates
pub mod Functions
pub mod Columns
pub mod Pushdowns
