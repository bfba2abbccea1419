-- ===== src/Runner.antt =====
-- ci-runner: the program that asks the driver for a job, runs its goodfile and reports.
pub mod Steps
pub mod Work
pub mod Build
pub mod LuaArgs
pub mod Exports
pub mod HostInfo
pub mod Remote
pub mod Output
pub mod Entry
pub mod Goodfile
