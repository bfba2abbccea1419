-- ===== src/Tests/Edge.antt =====
-- The theorems on ci-wasm-frontend at concrete inputs.
