-- ===== src/Db.antt =====
-- app/db: the ORM models, and the database as the code uses it.
pub mod Models
pub mod Session
pub mod Connection
