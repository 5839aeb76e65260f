-- ===== src/Db.antt =====
-- src/db: the rows of the SQLite tables and the schema.
pub mod Text
pub mod Models
pub mod Schema
