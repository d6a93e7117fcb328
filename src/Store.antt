-- ===== src/Store.antt =====
-- The Go packages under store/.
pub mod Memory
