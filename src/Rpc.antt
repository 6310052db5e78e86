-- ===== src/Rpc.antt =====
-- The package rpc/.
pub mod Balance
