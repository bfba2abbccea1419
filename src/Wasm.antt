-- ===== src/Wasm.antt =====
-- ci-wasm-frontend/src/main.rs: the read-only SQLite file systems of the edge service.
pub mod Pread
pub mod Vfs
pub mod Request
