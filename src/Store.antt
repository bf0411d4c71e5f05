-- ===== src/Store.antt =====
-- store/: where conversations are kept.
pub mod Inmem
pub mod Tests
