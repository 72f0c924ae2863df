-- ===== src/Wasm.antt =====
-- The executor of Wasm modules: crates/nova-wasm.
pub mod Pool
