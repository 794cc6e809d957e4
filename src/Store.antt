-- ===== src/Store.antt =====
-- Message stores.
pub mod Record
pub mod Memory
