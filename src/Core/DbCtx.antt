-- ===== src/Core/DbCtx.antt =====
-- The methods of `DbCtx`, ci-lib-core/src/dbctx.rs, by the tables that they use.
pub mod Lock
pub mod Commits
pub mod Jobs
pub mod Runs
pub mod Remotes
pub mod Hosts
pub mod Artifacts
pub mod ReadOnly
pub mod PerHost
