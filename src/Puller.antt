-- ===== src/Puller.antt =====
-- The package puller/.
pub mod Builder
pub mod Flows
pub mod Accounts
pub mod Stats
pub mod Reorg
pub mod Index
