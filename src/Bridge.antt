-- ===== src/Bridge.antt =====
-- bridge/: the worker that enriches captured sessions, over its database connection.
pub mod Adapter
pub mod Connect
pub mod Db
pub mod Worker
mod Witnesses
