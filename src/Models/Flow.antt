-- ===== src/Models/Flow.antt =====
-- puller/models/flow.go: one update of one sub-account of an account.
use tezos_index.Common.{ℕ, Bool, false}
use tezos_index.Common.Int64.{Int64}
use tezos_index.Chain.Address.{AddressType}
use tezos_index.Models.FlowType.{FlowCategory, FlowType}

pub record Flow : Type 0 where
  pub row_id : ℕ
  pub height : Int64
  pub cycle : Int64
  pub timestamp : ℕ
  pub account_id : ℕ
  pub origin_id : ℕ
  pub address_type : AddressType
  pub category : FlowCategory
  pub operation : FlowType
  pub amount_in : Int64
  pub amount_out : Int64
  pub is_fee : Bool
  pub is_burned : Bool
  pub is_frozen : Bool
  pub is_unfrozen : Bool
  pub token_gen_min : Int64
  pub token_gen_max : Int64
  pub token_age : Int64

-- `Flow.Reset`, and the flow that `flowPool.New` makes.
abbrev pub zero_flow : Flow
zero_flow = record {
  row_id = 0;
  height = 0;
  cycle = 0;
  timestamp = 0;
  account_id = 0;
  origin_id = 0;
  address_type = AddressType.invalid;
  category = FlowCategory.rewards;
  operation = FlowType.activation;
  amount_in = 0;
  amount_out = 0;
  is_fee = false;
  is_burned = false;
  is_frozen = false;
  is_unfrozen = false;
  token_gen_min = 0;
  token_gen_max = 0;
  token_age = 0;
}
