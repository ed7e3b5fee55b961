-- ===== src/Db.antt =====
-- internal/db: the records that the other parts exchange with the database.
pub mod Adapter
pub mod Table
pub mod Scan
pub mod Keys
pub mod Requests
pub mod Settings
pub mod Database
pub mod Migrations
