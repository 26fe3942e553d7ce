-- ===== src/Convert.antt =====
-- What the convertors make of the server's fields and rows: types, values and statements as text.
pub mod Fields
pub mod Numbers
pub mod Types
pub mod Values
pub mod Statements
pub mod Paths
