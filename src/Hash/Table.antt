-- ===== src/Hash/Table.antt =====
-- The whole hash table: every bucket holds the chain of its entries, newest first.
pub mod Defs
mod Insert
mod Remove
pub use Insert.*
pub use Remove.*
