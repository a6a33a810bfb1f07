-- ===== src/Db.antt =====
-- internal/db: the statements of the repository on the tables.
pub mod Repository
pub mod Rows
pub mod Update
pub mod Reads
