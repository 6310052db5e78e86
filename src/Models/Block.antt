-- ===== src/Models/Block.antt =====
-- puller/models/block.go: the block record, and the flows that are made for it. Left out are the
-- hash, the floating-point fields, and the RPC bundle and parent block that it points to.
pub mod Totals
pub mod Reward
use tezos_index.Common.{ℕ, Bool, false, List, [], Option, none, some}
use tezos_index.Common.Int64.{Int64, sub64, mul64, div64}
use tezos_index.Chain.Params.{Params}
use tezos_index.Models.Flow.{Flow, zero_flow}
use tezos_index.Models.Op.{Op}
use tezos_index.Models.Account.{Account}

pub record Block : Type 0 where
  pub row_id : ℕ
  pub parent_id : ℕ
  pub is_orphan : Bool
  pub height : Int64
  pub cycle : Int64
  pub is_cycle_snapshot : Bool
  pub timestamp : ℕ
  pub solvetime : Int64
  pub version : Int64
  pub validation : Int64
  pub fitness : ℕ
  pub priority : Int64
  pub nonce : ℕ
  pub voting_period_kind : ℕ
  pub baker_id : ℕ
  pub slots_endorsed : ℕ
  pub n_slots_endorsed : Int64
  pub n_ops : Int64
  pub n_ops_failed : Int64
  pub n_ops_contract : Int64
  pub n_tx : Int64
  pub n_activation : Int64
  pub n_seed_nonce : Int64
  pub n2_baking : Int64
  pub n2_endorsement : Int64
  pub n_endorsement : Int64
  pub n_delegation : Int64
  pub n_reveal : Int64
  pub n_origination : Int64
  pub n_proposal : Int64
  pub n_ballot : Int64
  pub volume : Int64
  pub fees : Int64
  pub rewards : Int64
  pub deposits : Int64
  pub unfrozen_fees : Int64
  pub unfrozen_rewards : Int64
  pub unfrozen_deposits : Int64
  pub activated_supply : Int64
  pub burned_supply : Int64
  pub seen_accounts : Int64
  pub new_accounts : Int64
  pub new_implicit_accounts : Int64
  pub new_managed_accounts : Int64
  pub new_contracts : Int64
  pub cleared_accounts : Int64
  pub funded_accounts : Int64
  pub gas_limit : Int64
  pub gas_used : Int64
  pub storage_size : Int64
  pub params : Params
  pub ops : List Op
  pub flows : List Flow
  pub baker : Option Account

-- A block with every number at zero.
abbrev pub zero_block : Params → Block
zero_block p = record {
  row_id = 0;
  parent_id = 0;
  is_orphan = false;
  height = 0;
  cycle = 0;
  is_cycle_snapshot = false;
  timestamp = 0;
  solvetime = 0;
  version = 0;
  validation = 0;
  fitness = 0;
  priority = 0;
  nonce = 0;
  voting_period_kind = 0;
  baker_id = 0;
  slots_endorsed = 0;
  n_slots_endorsed = 0;
  n_ops = 0;
  n_ops_failed = 0;
  n_ops_contract = 0;
  n_tx = 0;
  n_activation = 0;
  n_seed_nonce = 0;
  n2_baking = 0;
  n2_endorsement = 0;
  n_endorsement = 0;
  n_delegation = 0;
  n_reveal = 0;
  n_origination = 0;
  n_proposal = 0;
  n_ballot = 0;
  volume = 0;
  fees = 0;
  rewards = 0;
  deposits = 0;
  unfrozen_fees = 0;
  unfrozen_rewards = 0;
  unfrozen_deposits = 0;
  activated_supply = 0;
  burned_supply = 0;
  seen_accounts = 0;
  new_accounts = 0;
  new_implicit_accounts = 0;
  new_managed_accounts = 0;
  new_contracts = 0;
  cleared_accounts = 0;
  funded_accounts = 0;
  gas_limit = 0;
  gas_used = 0;
  storage_size = 0;
  params = p;
  ops = [];
  flows = [];
  baker = none;
}

-- `time.Second`, in nanoseconds.
abbrev second : Int64
second = 1000000000

-- `Age`
unfoldable pub age : Block → Int64 → Int64
age b height = mul64 (sub64 b.height height) (div64 b.params.time_between_blocks.0 second)

-- `NewFlow` of puller/models/flow.go; the origin may be nil.
unfoldable pub new_flow : Block → Account → Option Account → Flow
new_flow b acc org = record zero_flow {
  height = b.height;
  cycle = b.cycle;
  timestamp = b.timestamp;
  account_id = acc.row_id;
  address_type = acc.type;
  origin_id = elim org [ none ↦ 0 | some o ↦ o.row_id ];
}
