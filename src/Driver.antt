-- ===== src/Driver.antt =====
-- ci-driver/src/main.rs: the server that hands runs to runners, records what they report, and takes
-- their artifacts.
pub mod Client
pub mod Session
pub mod FindWork
pub mod Api
pub mod Reaper
pub mod Entry
