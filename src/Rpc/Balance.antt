-- ===== src/Rpc/Balance.antt =====
-- rpc/balance.go: the balance updates that a node reports for an operation or a block.
use tezos_index.Common.{if◌then◌else◌, List}
use tezos_index.Common.Int64.{Int64, lt64}
use tezos_index.Chain.Address.{Address}

-- The category of a freezer update: a text in the source, which tells these apart.
pub data FreezerCategory : Type 0 where
  deposits rewards fees other : FreezerCategory

pub record ContractUpdate : Type 0 where
  pub change : Int64
  pub contract : Address

pub record FreezerUpdate : Type 0 where
  pub change : Int64
  pub category : FreezerCategory
  pub delegate : Address
  pub level : Int64
  pub cycle : Int64

-- `BalanceUpdate`: `UnmarshalJSON` chooses the type by the kind, so the kind and the type agree.
pub data BalanceUpdate : Type 0 where
  contract : ContractUpdate → BalanceUpdate
  freezer : FreezerUpdate → BalanceUpdate
  generic : Int64 → BalanceUpdate

abbrev pub BalanceUpdates : Type 0
BalanceUpdates = List BalanceUpdate

-- `Cycle`: the cycle was once called level.
unfoldable pub cycle_of : FreezerUpdate → Int64
cycle_of b = if lt64 0 b.level then b.level else b.cycle
