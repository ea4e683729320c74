-- ===== src/Db.antt =====
-- labos/db: the rows of the schema, tables of rows, and the session that requests work in.
pub mod Rows
pub mod Table
pub mod Platform
pub mod Changes
pub mod Session
pub mod Keeps
pub mod Quiet
pub mod Aside
pub mod Steps
pub mod Order
