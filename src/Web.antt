-- ===== src/Web.antt =====
-- ci-lib-web/src/lib.rs: how runs and jobs are shown, and the index page.
pub mod Time
pub mod Links
pub mod Index
