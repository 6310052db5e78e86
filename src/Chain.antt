-- ===== src/Chain.antt =====
-- The package chain/.
pub mod Address
pub mod Params
pub mod OpType
pub mod Magic
pub mod HashType
pub mod Voting
