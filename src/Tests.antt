-- ===== src/Tests.antt =====
-- Runs of the model on concrete inputs, and each theorem applied to one.
pub mod Data
pub mod Core
pub mod Driver
pub mod Copies
pub mod Edge
pub mod HostInfo
pub mod Remote
pub mod Lifecycle
pub mod Server
pub mod Runner
pub mod Pages
pub mod Interleaved
