-- ===== src/Storage.antt =====
-- The database as the services see it: tables of rows, through the client's operations.
pub mod Table
pub mod Finding
pub mod Rows
pub mod World
