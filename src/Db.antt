-- ===== src/Db.antt =====
-- internal/db: the rows of the database and the queries over them.
pub mod Rows
pub mod Servers
pub mod Queue
pub mod Logs
pub mod Settings
pub mod Order
pub mod Migrations
pub mod Writes
