-- ===== src/Core.antt =====
-- ci-lib-core: the protocol, the database's records and tables, and the methods of `DbCtx`.
pub mod Protocol
pub mod Sql
pub mod Table
pub mod Db
pub mod DbCtx
