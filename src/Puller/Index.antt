-- ===== src/Puller/Index.antt =====
-- The package puller/index/: the tables that follow the chain.
pub mod Income
pub mod Gov
