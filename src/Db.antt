-- ===== src/Db.antt =====
-- libs/amel_db: the transaction scope, and what the services use of PostgreSQL.
pub mod Session
pub mod Upsert
pub mod Memory
pub mod Table
pub mod Block
pub mod Models
pub mod Batches
pub mod MemoryTable
