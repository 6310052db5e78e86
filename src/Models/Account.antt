-- ===== src/Models/Account.antt =====
-- The account of puller/models/account.go: its record and balances, the balance update of a flow
-- and its rollback.
mod Defs
pub mod Update
pub mod Ids
pub mod Rollback
pub mod Books
pub mod Undo
pub mod Drift
pub mod Ledger
pub mod Sound
pub mod Flags
pub use Defs.{Account, zero_account}
unfoldable pub use Defs.{reset, new_account, free, frozen_balance, balance, staking_balance}
unfoldable pub use Defs.{rolls, init_grace_period, update_grace_period}
