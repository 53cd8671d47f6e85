-- ===== src/Server.antt =====
-- crates/graphnight-server: who a caller is.
pub mod Auth
