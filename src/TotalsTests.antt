-- ===== src/TotalsTests.antt =====
-- Runs of the totals of a block, of the supply and of the chain at concrete inputs.
use mathlib.Core.List.{Permᴰ}
use tezos_index.Common.{ℕ, ◌≡◌, refl, arith, true, false, List, [], ◌∷◌, Option, none, some}
use tezos_index.Common.Int64.{Int64, add64, sub64, neg64}
use tezos_index.Chain.Address.{Address, AddressType}
use tezos_index.Rpc.Balance.{BalanceUpdate, BalanceUpdates, FreezerCategory}
use tezos_index.Puller.Builder.{Builder, Outcome, ok}
use tezos_index.Puller.Flows.Baking.{new_baker_flows}
use tezos_index.Puller.Flows.SeedBurns.{new_baker_flows-is_seed_burns_frozen}
use tezos_index.Chain.Params.{Params, new_params}
use tezos_index.Chain.OpType.{OpType, OpStatus}
use tezos_index.Models.FlowType.{FlowCategory, FlowType}
use tezos_index.Models.Flow.{Flow, zero_flow}
use tezos_index.Models.Op.{Op}
use tezos_index.Models.Account.{Account, zero_account}
use tezos_index.Models.Block.{Block, zero_block}
use tezos_index.Models.Block.Totals as Totals
use tezos_index.Models.Block.Totals.Counters.{count, occurrences, update-count}
use tezos_index.Models.Supply.{Supply}
use tezos_index.Models.Supply as Supply
use tezos_index.Models.Supply.Totals.{IsBalanced, is_seed_burns_frozen, update-IsBalanced}
use tezos_index.Models.Supply.Growth.{airdropped, update_growth}
use tezos_index.Models.Supply.Order.{update-Perm}
use tezos_index.Models.Chain.{Chain}
use tezos_index.Models.Chain as Chain
use tezos_index.Models.Chain.Sums.{IsSum, update-IsSum}

abbrev pub roll_params : Params
unfolding new_params
roll_params = record new_params { tokens_per_roll = 8000 }

abbrev pub transfer : Op
transfer = record {
  row_id = 0;
  op_n = 0;
  op_c = 0;
  op_i = 0;
  type = OpType.transaction;
  status = OpStatus.applied;
  is_success = true;
  is_contract = false;
  gas_limit = 10600;
  gas_used = 10200;
  storage_limit = 0;
  storage_size = 0;
  storage_paid = 257;
  volume = 250000;
  fee = 1420;
  reward = 0;
  deposit = 0;
  burned = 257;
  is_internal = false;
  sender_id = 4;
  op_data = [];
}

abbrev endorsement : Op
endorsement = record transfer { type = OpType.endorsement; op_n = 1; reward = 1250; deposit = 64 }

abbrev seed_burn : Flow
seed_burn = record zero_flow {
  category = FlowCategory.fees;
  operation = FlowType.nonce_revelation;
  amount_out = 900;
  is_burned = true;
}

abbrev invoice : Flow
invoice = record zero_flow {
  category = FlowCategory.balance;
  operation = FlowType.invoice;
  amount_in = 100;
}

-- A block of a transaction and an endorsement, in which a nonce is punished and an invoice is paid.
abbrev small_block : Block
small_block = record (zero_block roll_params) {
  height = 9;
  n_seed_nonce = 3;
  ops = transfer ∷ endorsement ∷ [];
  flows = seed_burn ∷ invoice ∷ [];
}

-- The endorsement has the slots 3 and 17.
abbrev slots : Op → Option (List Int64)
slots o = some (3 ∷ 17 ∷ [])

abbrev newcomer : Account
newcomer = record zero_account {
  row_id = 5;
  is_new = true;
  is_dirty = true;
  is_funded = true;
  last_seen = 9;
  spendable_balance = 100;
}

abbrev delegate : Account
delegate = record zero_account {
  row_id = 6;
  is_delegate = true;
  is_active_delegate = true;
  active_delegations = 2;
  spendable_balance = 9000;
  delegated_balance = 8000;
}

abbrev retired : Account
retired = record zero_account { row_id = 7; is_delegate = true; spendable_balance = 50 }

-- What an update has returned.
abbrev returned : Option (Block × ℕ) → Block × ℕ
returned none = (small_block, 0)
returned (some r) = r

abbrev updated : Block × ℕ
unfolding Totals.update Totals.proceed Totals.reset_totals Totals.count_ops Totals.count_rest
updated = returned (Totals.update slots small_block (newcomer ∷ []) (delegate ∷ retired ∷ []))

abbrev pub no_supply : Supply
no_supply = record {
  row_id = 0;
  height = 0;
  cycle = 0;
  timestamp = 0;
  total = 0;
  activated = 0;
  unclaimed = 0;
  vested = 0;
  unvested = 0;
  circulating = 0;
  delegated = 0;
  staking = 0;
  active_delegated = 0;
  active_staking = 0;
  inactive_delegated = 0;
  inactive_staking = 0;
  minted = 0;
  minted_baking = 0;
  minted_endorsing = 0;
  minted_seeding = 0;
  minted_airdrop = 0;
  burned = 0;
  burned_double_baking = 0;
  burned_double_endorse = 0;
  burned_origination = 0;
  burned_implicit = 0;
  burned_seed_miss = 0;
  frozen = 0;
  frozen_deposits = 0;
  frozen_rewards = 0;
  frozen_fees = 0;
}

abbrev pub no_chain : Chain
no_chain = record {
  row_id = 0;
  height = 0;
  cycle = 0;
  timestamp = 0;
  total_accounts = 0;
  total_implicit = 0;
  total_managed = 0;
  total_contracts = 0;
  total_ops = 0;
  total_contract_ops = 0;
  total_activations = 0;
  total_seed_nonces = 0;
  total_endorsements = 0;
  total_double_bake = 0;
  total_double_endorse = 0;
  total_delegations = 0;
  total_reveals = 0;
  total_originations = 0;
  total_transactions = 0;
  total_proposals = 0;
  total_ballots = 0;
  total_storage_bytes = 0;
  total_paid_bytes = 0;
  total_used_bytes = 0;
  total_orphans = 0;
  funded_accounts = 0;
  unclaimed_accounts = 0;
  total_delegators = 0;
  active_delegators = 0;
  inactive_delegators = 0;
  total_delegates = 0;
  active_delegates = 0;
  inactive_delegates = 0;
  zero_delegates = 0;
  self_delegates = 0;
  single_delegates = 0;
  multi_delegates = 0;
  rolls = 0;
  roll_owners = 0;
}

update-count_example :
    count OpType.transaction updated.0
    ≡ add64 0 (occurrences OpType.transaction (transfer ∷ endorsement ∷ []))
unfolding Totals.update Totals.proceed Totals.reset_totals Totals.count_ops Totals.count_rest
update-count_example =
    update-count slots OpType.transaction small_block (newcomer ∷ []) (delegate ∷ retired ∷ [])
      updated refl (omega arith) refl

update-IsBalanced_example :
    IsBalanced (Supply.update no_supply small_block (delegate ∷ retired ∷ []))
unfolding is_seed_burns_frozen
update-IsBalanced_example = update-IsBalanced no_supply small_block (delegate ∷ retired ∷ []) refl

update_growth_example :
    let t = Supply.update no_supply small_block (delegate ∷ []) in
    (t.total ≡ add64 (add64 0 (sub64 0 0)) (airdropped (seed_burn ∷ invoice ∷ [])))
    × (t.minted ≡ add64 (add64 0 0) (airdropped (seed_burn ∷ invoice ∷ [])))
    × (t.burned ≡ add64 0 0)
    × (sub64 (add64 t.total t.burned) t.minted ≡ sub64 (add64 0 0) 0)
    × (add64 t.activated t.unclaimed ≡ add64 0 0)
    × (add64 t.vested t.unvested ≡ add64 0 0)
update_growth_example = update_growth no_supply small_block (delegate ∷ []) (omega arith)

update-Perm_example :
    Supply.update no_supply small_block (delegate ∷ retired ∷ [])
    ≡ Supply.update no_supply small_block (retired ∷ delegate ∷ [])
update-Perm_example =
    update-Perm no_supply small_block (delegate ∷ retired ∷ []) (retired ∷ delegate ∷ [])
      (Permᴰ.swap refl refl)

update-IsSum_example :
    (c : Chain) × (Chain.update no_chain small_block (delegate ∷ retired ∷ []) ≡ some c) × IsSum c
unfolding add64 roll_params
update-IsSum_example =
    update-IsSum no_chain small_block (delegate ∷ retired ∷ []) (omega arith) (omega arith)
      (omega arith)

-- The slots 3 and 17 are the bits 8 and 131072.
updated-slots : updated.1 ≡ 131080
unfolding Totals.update Totals.proceed Totals.reset_totals Totals.count_ops Totals.count_rest
updated-slots = refl

-- A builder that knows one baker, and a nonce that this baker did not reveal.
abbrev builder : Builder
builder = record {
  block = small_block;
  acc_hash_map = λ key. none;
  acc_map = λ id. none;
  dlg_hash_map = λ key. some delegate;
  dlg_map = λ id. some delegate;
}

abbrev hash_key : Address → ℕ
hash_key addr = 0

abbrev slashing : BalanceUpdates
unfolding neg64
slashing =
    BalanceUpdate.freezer (record {
      change = neg64 900;
      category = FreezerCategory.rewards;
      delegate = record { type = AddressType.invalid; hash = [] };
      level = 2;
      cycle = 0;
    })
    ∷ []

abbrev made : Outcome (Builder × List Flow) → Builder × List Flow
made (ok r) = r
made _ = (builder, [])

abbrev slashed : Builder × List Flow
unfolding new_baker_flows
slashed = made (new_baker_flows hash_key builder slashing)

new_baker_flows-is_seed_burns_frozen_example : is_seed_burns_frozen slashed.0.block.flows ≡ true
unfolding new_baker_flows is_seed_burns_frozen slashing
new_baker_flows-is_seed_burns_frozen_example =
    new_baker_flows-is_seed_burns_frozen hash_key builder slashed.0 slashing slashed.1 refl refl
