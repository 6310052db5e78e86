-- ===== src/Tests.antt =====
-- Runs of the model at concrete inputs: the parameters of the main network, accounts, flows and
-- balance updates of the size that the chain has.
use tezos_index.Common.{
  ◌≡◌, ◌≢◌, ◌↔◌, inl, ◌≤◌, ◌+◌, refl, arith, true, List, [], ◌∷◌, ◌++◌, none, some,
}
use tezos_index.Common.Int64.{Int64, add64, sub64, neg64, lt64, is_neg}
use tezos_index.Chain.Address.{AddressType, Address}
use tezos_index.Chain.Params.{Params, new_params, cycle_from_height, cycle_start_height}
use tezos_index.Chain.Params.{cycle_end_height}
use tezos_index.Chain.Params.Heights.{cycle_from_height-range}
use tezos_index.Utils.MinMax.{max64}
use tezos_index.Models.FlowType.{FlowCategory, FlowType}
use tezos_index.Models.Flow.{Flow, zero_flow}
use tezos_index.Models.Account.{Account, zero_account}
use tezos_index.Models.Account.Books.{IsSound, IsAmounts, SameBooks, sub_account}
use tezos_index.Models.Account.Update.{update_balance, update_balance_n}
use tezos_index.Models.Account.Rollback.{rollback_balance}
use tezos_index.Models.Account.Undo.{rollback_balance-update_balance}
use tezos_index.Models.Account.Drift.{rollback_balance-total_sent}
use tezos_index.Models.Account.Ledger.{net, update_balance_n-net}
use tezos_index.Models.Account.Sound.{update_balance-IsSound}
use tezos_index.Models.Account.Flags.{IsClaim, update_balance-error, update_balance-claim_error}
use tezos_index.Models.Block.{Block, zero_block}
use tezos_index.Rpc.Balance.{BalanceUpdate, BalanceUpdates, FreezerCategory}
use tezos_index.Puller.Builder.{Builder, Outcome, ok}
use tezos_index.Puller.Flows.Transfer.{new_transaction_flows}
use tezos_index.Puller.Flows.Originate.{new_origination_flows}
use tezos_index.Puller.Flows.Sums.{value, contract_total, freezer_total, is_fees, credited, debited}
use tezos_index.Puller.Flows.Conserve.{new_transaction_flows-value, new_origination_flows-value}

-- Cycles of 4096 blocks with a roll snapshot every 256 of them, and 5 preserved cycles.
abbrev main_params : Params
unfolding new_params
main_params = record new_params {
  blocks_per_cycle = 4096;
  blocks_per_roll_snapshot = 256;
  preserved_cycles = 5;
}

-- An account with a million coins to spend, of which half are frozen again as deposits.
abbrev rich : Account
rich = record zero_account {
  row_id = 7;
  spendable_balance = 1000000;
  frozen_deposits = 500000;
  unclaimed_balance = 1000;
}

rich-IsSound : IsSound rich
rich-IsSound = record {
  frozen_deposits = omega arith;
  frozen_rewards = omega arith;
  frozen_fees = omega arith;
  unclaimed_balance = omega arith;
  spendable_balance = omega arith;
  delegated_balance = omega arith;
  total_received = omega arith;
  total_sent = omega arith;
  total_burned = omega arith;
  total_fees_paid = omega arith;
  total_rewards_earned = omega arith;
  total_fees_earned = omega arith;
  total_lost = omega arith;
}

abbrev payment : Flow
payment = record zero_flow {
  category = FlowCategory.balance;
  operation = FlowType.transaction;
  amount_out = 250000;
}

abbrev paid_fee : Flow
paid_fee = record payment { amount_out = 1420; is_fee = true }

abbrev unfreeze : Flow
unfreeze = record zero_flow {
  category = FlowCategory.deposits;
  operation = FlowType.baking;
  amount_out = 500000;
}

abbrev overdraft : Flow
overdraft = record unfreeze { amount_out = 500001 }

abbrev claim : Flow
claim = record zero_flow {
  category = FlowCategory.balance;
  operation = FlowType.activation;
  amount_in = 1001;
}

payment-IsAmounts : IsAmounts payment
payment-IsAmounts = record { amount_in = omega arith; amount_out = omega arith }

paid_fee-IsAmounts : IsAmounts paid_fee
paid_fee-IsAmounts = record { amount_in = omega arith; amount_out = omega arith }

cycle_from_height-range_example :
    (c : Int64) × (cycle_from_height main_params 8193 ≡ some c)
    × (cycle_start_height main_params c ≤ 8193)
    × (8193 ≤ cycle_end_height main_params c)
    × (cycle_end_height main_params c + 1 ≡ cycle_start_height main_params c + 4096)
unfolding new_params
cycle_from_height-range_example =
    cycle_from_height-range main_params 8193 (omega arith) (omega arith) (omega arith)

rollback_balance-update_balance_example :
    let b = (update_balance rich payment).0 in
    ((rollback_balance b payment).1 ≡ none) × SameBooks (rollback_balance b payment).0 rich
unfolding update_balance
rollback_balance-update_balance_example =
    rollback_balance-update_balance rich payment rich-IsSound payment-IsAmounts (omega arith)
      (λ c. omega arith) (λ c t. (refl, refl)) refl

rollback_balance-total_sent_example :
    let b = (update_balance rich paid_fee).0 in
    (b.total_sent ≡ 0)
    × ((rollback_balance b paid_fee).1 ≡ none)
    × ((rollback_balance b paid_fee).0.total_sent ≡ sub64 0 1420)
rollback_balance-total_sent_example =
    rollback_balance-total_sent rich paid_fee rich-IsSound paid_fee-IsAmounts refl refl (inl refl)
      refl (omega arith)

update_balance_n-net_example :
    sub_account FlowCategory.deposits (update_balance_n rich (unfreeze ∷ payment ∷ [])).0
    ≡ add64 500000 (net FlowCategory.deposits (unfreeze ∷ payment ∷ []))
unfolding update_balance_n lt64
update_balance_n-net_example =
    update_balance_n-net FlowCategory.deposits rich (unfreeze ∷ payment ∷ []) (ground arith)
      (omega arith) refl

update_balance-IsSound_example : IsSound (update_balance rich payment).0
update_balance-IsSound_example =
    update_balance-IsSound rich payment rich-IsSound payment-IsAmounts (omega arith)
      (λ c. omega arith)

update_balance-error_example :
    ((update_balance rich overdraft).1 ≢ none ↔ lt64 500000 500001 ≡ true)
    × ((update_balance rich overdraft).1 ≢ none
        → (update_balance rich overdraft).0 ≡ record rich { is_dirty = true })
update_balance-error_example = update_balance-error rich overdraft (ground arith) (ground arith)

-- A claim of more than is unclaimed, with an out-flow that the balance does not cover.
abbrev burned_claim : Flow
burned_claim = record claim { amount_out = 1000007; is_burned = true }

update_balance-claim_error_example :
    ((update_balance rich burned_claim).1 ≢ none
      ↔ (IsClaim FlowType.activation × (lt64 1000 1001 ≡ true)))
    × ((update_balance rich burned_claim).1 ≢ none
        → (update_balance rich burned_claim).0
          ≡ record rich { is_dirty = true; spendable_balance = 1000007; total_burned = 1000007 })
    × ((update_balance rich burned_claim).1 ≡ none
        → ((update_balance rich burned_claim).0.spendable_balance
            ≡ add64 1000007 (sub64 1001 1000007))
          × (IsClaim FlowType.activation
              → add64
                  (update_balance rich burned_claim).0.spendable_balance
                  (update_balance rich burned_claim).0.unclaimed_balance
                ≡ sub64 (add64 1000007 1000) 1000007))
unfolding max64 lt64 add64
update_balance-claim_error_example = update_balance-claim_error rich burned_claim refl

-- A block baked by a baker, and a transaction that pays a fee, moves coins and burns some.
abbrev baker : Account
baker = record zero_account { row_id = 1 }

abbrev poor : Account
poor = record zero_account { row_id = 8 }

abbrev main_block : Block
main_block = record (zero_block main_params) { baker = some baker }

abbrev builder : Builder
builder = record {
  block = main_block;
  acc_hash_map = λ key. none;
  acc_map = λ id. none;
  dlg_hash_map = λ key. none;
  dlg_map = λ id. none;
}

abbrev nobody : Address
nobody = record { type = AddressType.ed25519; hash = [] }

abbrev fee_updates : BalanceUpdates
unfolding neg64
fee_updates =
    BalanceUpdate.contract (record { change = neg64 1420; contract = nobody })
    ∷ BalanceUpdate.freezer (record {
      change = 1420;
      category = FreezerCategory.fees;
      delegate = nobody;
      level = 2;
      cycle = 0;
    })
    ∷ []

abbrev transfer_updates : BalanceUpdates
unfolding neg64
transfer_updates =
    BalanceUpdate.contract (record { change = neg64 250000; contract = nobody })
    ∷ BalanceUpdate.contract (record { change = 250000; contract = nobody })
    ∷ BalanceUpdate.contract (record { change = neg64 257; contract = nobody })
    ∷ []

abbrev map_amounts : List Flow → List (Int64 × Int64)
map_amounts [] = []
map_amounts (f ∷ fs) = (f.amount_in, f.amount_out) ∷ map_amounts fs

-- What a call has returned; the block as it was where it failed.
abbrev returned : Outcome (Builder × List Flow) → Builder × List Flow
returned (ok r) = r
returned _ = (builder, [])

abbrev transfer : Builder × List Flow
unfolding new_transaction_flows
transfer = returned (
    new_transaction_flows builder rich (some poor) (some baker) none fee_updates transfer_updates
      main_block)

new_transaction_flows-value_example :
    (value transfer.1
      ≡ add64
          (add64 (contract_total fee_updates) (freezer_total is_fees fee_updates))
          (contract_total transfer_updates))
    × (transfer.0.block.flows ≡ [] ++ transfer.1)
unfolding new_transaction_flows neg64 add64 sub64 lt64 credited debited is_neg
new_transaction_flows-value_example =
    new_transaction_flows-value builder transfer.0 rich (some poor) (some baker) none fee_updates
      transfer_updates main_block transfer.1 (omega arith) refl

abbrev origination : Builder × List Flow
unfolding new_origination_flows
origination = returned (
    new_origination_flows builder rich (some poor) (some baker) (some baker) fee_updates
      transfer_updates)

new_origination_flows-value_example :
    (value origination.1
      ≡ add64
          (add64 (contract_total fee_updates) (freezer_total is_fees fee_updates))
          (contract_total transfer_updates))
    × (origination.0.block.flows ≡ [] ++ origination.1)
unfolding new_origination_flows neg64 add64 sub64 lt64 credited debited is_neg
new_origination_flows-value_example =
    new_origination_flows-value builder origination.0 rich (some poor) (some baker) (some baker)
      fee_updates transfer_updates origination.1 (omega arith) refl

-- The payment makes six flows: the fee and the baker's income, the two sides of the transfer, the
-- burn, and what the delegate loses.
transfer_amounts :
    map_amounts transfer.1
    ≡ (0, 1420) ∷ (1420, 0) ∷ (0, 250000) ∷ (250000, 0) ∷ (0, 257) ∷ (0, 251677) ∷ []
unfolding new_transaction_flows neg64 add64 sub64 lt64 is_neg
transfer_amounts = refl
