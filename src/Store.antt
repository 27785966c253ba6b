-- ===== src/Store.antt =====
-- internal/store: the tables that deliveries and submissions go through, and the operations on them.
pub mod Vault
pub mod Rows
pub mod Credentials
pub mod Session
pub mod Messages
pub mod Marks
pub mod Routes
pub mod Backends
pub mod Status
pub mod Reads
pub mod Insert
pub mod Resolve
pub mod Retention
