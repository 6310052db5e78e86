-- ===== src/Models/Account/Defs.antt =====
-- puller/models/account.go: the account record, its balances, and the methods that take it from
-- the pool and hand it back. Account ids and hash types are numbers that are only copied and
-- compared.
use Prim.Native.String.{String}
use tezos_index.Common.{
  ℕ, Bool, false, true, not, List, [], Option, none, some, ◌==◌, if◌then◌else◌,
}
use tezos_index.Common.Int64.{Int64, add64, mul64, div64}
use tezos_index.Chain.Address.{AddressType, Address, is_contract_type}
use tezos_index.Chain.Params.{Params}
use tezos_index.Utils.MinMax.{max64}

pub record Account : Type 0 where
  pub row_id : ℕ
  pub hash : List ℕ
  pub delegate_id : ℕ
  pub manager_id : ℕ
  pub pubkey_hash : List ℕ
  pub pubkey_type : ℕ
  pub type : AddressType
  pub addr : String
  pub first_in : Int64
  pub first_out : Int64
  pub last_in : Int64
  pub last_out : Int64
  pub first_seen : Int64
  pub last_seen : Int64
  pub delegated_since : Int64
  pub delegate_since : Int64
  pub total_received : Int64
  pub total_sent : Int64
  pub total_burned : Int64
  pub total_fees_paid : Int64
  pub total_rewards_earned : Int64
  pub total_fees_earned : Int64
  pub total_lost : Int64
  pub frozen_deposits : Int64
  pub frozen_rewards : Int64
  pub frozen_fees : Int64
  pub unclaimed_balance : Int64
  pub spendable_balance : Int64
  pub delegated_balance : Int64
  pub total_delegations : Int64
  pub active_delegations : Int64
  pub is_funded : Bool
  pub is_activated : Bool
  pub is_vesting : Bool
  pub is_spendable : Bool
  pub is_delegatable : Bool
  pub is_delegated : Bool
  pub is_revealed : Bool
  pub is_delegate : Bool
  pub is_active_delegate : Bool
  pub is_contract : Bool
  pub blocks_baked : Int64
  pub blocks_missed : Int64
  pub blocks_stolen : Int64
  pub blocks_endorsed : Int64
  pub slots_endorsed : Int64
  pub slots_missed : Int64
  pub n_ops : Int64
  pub n_ops_failed : Int64
  pub n_tx : Int64
  pub n_delegation : Int64
  pub n_origination : Int64
  pub n_proposal : Int64
  pub n_ballot : Int64
  pub token_gen_min : Int64
  pub token_gen_max : Int64
  pub grace_period : Int64
  pub is_new : Bool
  pub was_funded : Bool
  pub is_dirty : Bool
  pub must_delete : Bool

-- `new(Account)`: every field at its zero value.
abbrev pub zero_account : Account
zero_account = record {
  row_id = 0;
  hash = [];
  delegate_id = 0;
  manager_id = 0;
  pubkey_hash = [];
  pubkey_type = 0;
  type = AddressType.invalid;
  addr = "";
  first_in = 0;
  first_out = 0;
  last_in = 0;
  last_out = 0;
  first_seen = 0;
  last_seen = 0;
  delegated_since = 0;
  delegate_since = 0;
  total_received = 0;
  total_sent = 0;
  total_burned = 0;
  total_fees_paid = 0;
  total_rewards_earned = 0;
  total_fees_earned = 0;
  total_lost = 0;
  frozen_deposits = 0;
  frozen_rewards = 0;
  frozen_fees = 0;
  unclaimed_balance = 0;
  spendable_balance = 0;
  delegated_balance = 0;
  total_delegations = 0;
  active_delegations = 0;
  is_funded = false;
  is_activated = false;
  is_vesting = false;
  is_spendable = false;
  is_delegatable = false;
  is_delegated = false;
  is_revealed = false;
  is_delegate = false;
  is_active_delegate = false;
  is_contract = false;
  blocks_baked = 0;
  blocks_missed = 0;
  blocks_stolen = 0;
  blocks_endorsed = 0;
  slots_endorsed = 0;
  slots_missed = 0;
  n_ops = 0;
  n_ops_failed = 0;
  n_tx = 0;
  n_delegation = 0;
  n_origination = 0;
  n_proposal = 0;
  n_ballot = 0;
  token_gen_min = 0;
  token_gen_max = 0;
  grace_period = 0;
  is_new = false;
  was_funded = false;
  is_dirty = false;
  must_delete = false;
}

-- `Account.Reset`. The field `Addr` is not reset.
unfoldable pub reset : Account → Account
reset a = record {
  row_id = 0;
  hash = [];
  delegate_id = 0;
  manager_id = 0;
  pubkey_hash = [];
  pubkey_type = 0;
  type = AddressType.invalid;
  addr = a.addr;
  first_in = 0;
  first_out = 0;
  last_in = 0;
  last_out = 0;
  first_seen = 0;
  last_seen = 0;
  delegated_since = 0;
  delegate_since = 0;
  total_received = 0;
  total_sent = 0;
  total_burned = 0;
  total_fees_paid = 0;
  total_rewards_earned = 0;
  total_fees_earned = 0;
  total_lost = 0;
  frozen_deposits = 0;
  frozen_rewards = 0;
  frozen_fees = 0;
  unclaimed_balance = 0;
  spendable_balance = 0;
  delegated_balance = 0;
  total_delegations = 0;
  active_delegations = 0;
  is_funded = false;
  is_activated = false;
  is_vesting = false;
  is_spendable = false;
  is_delegatable = false;
  is_delegated = false;
  is_revealed = false;
  is_delegate = false;
  is_active_delegate = false;
  is_contract = false;
  blocks_baked = 0;
  blocks_missed = 0;
  blocks_stolen = 0;
  blocks_endorsed = 0;
  slots_endorsed = 0;
  slots_missed = 0;
  n_ops = 0;
  n_ops_failed = 0;
  n_tx = 0;
  n_delegation = 0;
  n_origination = 0;
  n_proposal = 0;
  n_ballot = 0;
  token_gen_min = 0;
  token_gen_max = 0;
  grace_period = 0;
  is_new = false;
  was_funded = false;
  is_dirty = false;
  must_delete = false;
}

-- `NewAccount`, on the account that the pool hands out.
unfoldable pub new_account : Account → Address → Account
new_account pooled addr = record pooled {
  type = addr.type;
  hash = addr.hash;
  is_new = true;
  is_dirty = true;
  is_spendable = not (is_contract_type addr.type);
}

-- `Free`: what goes back to the pool. Delegates are kept out of it.
unfoldable pub free : Account → Option Account
unfolding reset
free a = if a.is_delegate then none else some (reset a)

-- `FrozenBalance`
unfoldable pub frozen_balance : Account → Int64
frozen_balance a = add64 (add64 a.frozen_deposits a.frozen_fees) a.frozen_rewards

-- `Balance`
unfoldable pub balance : Account → Int64
unfolding frozen_balance
balance a =
    let b = add64 (frozen_balance a) a.spendable_balance in
    if a.is_vesting then add64 b a.unclaimed_balance else b

-- `StakingBalance`
unfoldable pub staking_balance : Account → Int64
staking_balance a =
    add64 (add64 (add64 a.frozen_deposits a.frozen_fees) a.spendable_balance) a.delegated_balance

-- `Rolls`
unfoldable pub rolls : Account → Params → Int64
unfolding staking_balance
rolls a p = if p.tokens_per_roll == 0 then 0 else div64 (staking_balance a) p.tokens_per_roll

-- `InitGracePeriod`
unfoldable pub init_grace_period : Account → Int64 → Params → Account
init_grace_period a cycle p = record a {
  grace_period = add64 (add64 cycle (mul64 2 p.preserved_cycles)) 1;
}

-- `UpdateGracePeriod`
unfoldable pub update_grace_period : Account → Int64 → Params → Account
unfolding max64
update_grace_period a cycle p = record a {
  grace_period = max64 (add64 (add64 cycle p.preserved_cycles) 1) a.grace_period;
}
