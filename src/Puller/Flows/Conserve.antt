-- ===== src/Puller/Flows/Conserve.antt =====
-- puller/flow.go: the flows of an operation beside the balance updates that it came with.
use tezos_index.Common.{◌≡◌, arith, refl, true, false, List, ◌++◌, Option, some, none}
use tezos_index.Common.Int64.{Int64, IsInt64, IsNonneg, add64, sub64, neg64, lt64}
use tezos_index.Rpc.Balance.{BalanceUpdates}
use tezos_index.Models.FlowType.{FlowType}
use tezos_index.Models.Flow.{Flow}
use tezos_index.Models.Account.{Account}
use tezos_index.Models.Block.{Block}
use tezos_index.Puller.Builder.{Builder, ok}
use tezos_index.Puller.Flows.Parts.{burn_flows, undelegate_flows}
use tezos_index.Puller.Flows.Transfer.{move_flows, delegate_flows, transaction_flows}
use tezos_index.Puller.Flows.Transfer.{new_transaction_flows}
use tezos_index.Puller.Flows.Originate.{fund_flows, new_delegate_flows, origination_flows}
use tezos_index.Puller.Flows.Originate.{new_origination_flows}
use tezos_index.Puller.Flows.Sums.{value, value-append, contract_total, freezer_total, is_fees}
use tezos_index.Puller.Flows.Sums.{credited, debited, contract_total-eq}
use tezos_index.Puller.Flows.Loops.{fee_loop-FeesOf}
use tezos_index.Puller.Flows.Inversion.{new_transaction_flows-parts, new_origination_flows-parts}
use tezos_index.Puller.Builder.Laws.{>>=-eq-ok, ok-injective}

move_flows-value :
    (b block : Block) (src : Account) (dst : Option Account) (moved : Int64)
    → value (move_flows b block src dst moved) ≡ 0
unfolding move_flows value add64 sub64
move_flows-value b block src none moved = refl
move_flows-value b block src (some d) moved = ground arith

fund_flows-value :
    (b : Block) (src : Account) (dst : Option Account) (moved : Int64)
    → value (fund_flows b src dst moved) ≡ 0
unfolding fund_flows value add64 sub64
fund_flows-value b src none moved = refl
fund_flows-value b src (some d) moved = ground arith

pub burn_flows-value :
    (b : Block) (payer : Account) (op : FlowType) (burned : Int64)
    → IsNonneg burned
    → value (burn_flows b payer op burned) ≡ neg64 burned
unfolding burn_flows value add64 sub64 neg64 lt64
burn_flows-value b payer op burned h = ground arith

undelegate_flows-value :
    (b : Block) (dlg : Option Account) (src : Account) (op : FlowType) (amount : Int64)
    → value (undelegate_flows b dlg src op amount) ≡ 0
unfolding undelegate_flows value add64
undelegate_flows-value b none src op amount = refl
undelegate_flows-value b (some dlg) src op amount = ground arith

delegate_flows-value :
    (b : Block) (dlg dst : Option Account) (src : Account) (op : FlowType) (amount : Int64)
    (fs : List Flow)
    → delegate_flows b dlg dst src op amount ≡ ok fs
    → value fs ≡ 0
unfolding delegate_flows value add64
delegate_flows-value b none dst src op amount fs e = ground arith
delegate_flows-value b (some dlg) dst src op amount fs e = ground arith

new_delegate_flows-value :
    (b : Block) (dlg : Option Account) (src : Account) (amount : Int64)
    → value (new_delegate_flows b dlg src amount) ≡ 0
unfolding new_delegate_flows value add64
new_delegate_flows-value b none src amount = refl
new_delegate_flows-value b (some dlg) src amount = ground arith

-- Four lists of which only the second has a value.
only_second : (v : Int64) → IsInt64 v → add64 (add64 (add64 0 v) 0) 0 ≡ v
unfolding add64
only_second v h = omega arith

neg64-sub64 : (c d : Int64) → (neg64 (sub64 d c) ≡ sub64 c d) × IsInt64 (sub64 c d)
unfolding neg64 sub64
neg64-sub64 c d = omega arith

transaction_flows-value :
    (b block : Block) (src : Account) (dst srcdlg dstdlg : Option Account)
    (fees moved spent : Int64) (flows : List Flow)
    → IsNonneg (sub64 spent moved)
    → transaction_flows b block src dst srcdlg dstdlg fees moved spent ≡ ok flows
    → value flows ≡ sub64 moved spent
unfolding transaction_flows
transaction_flows-value b block src dst srcdlg dstdlg fees moved spent flows h e =
    let (gained, m, e') =
      >>=-eq-ok (delegate_flows b dstdlg dst src FlowType.transaction moved) _ flows e in
    let made = ok-injective e' in
    let negated = neg64-sub64 moved spent in
    rw (← made, value-append, value-append, value-append, move_flows-value)
      (rw (burn_flows-value b src FlowType.transaction (sub64 spent moved) h) (
        rw
          (
            undelegate_flows-value,
            delegate_flows-value b dstdlg dst src _ moved gained m,
            negated.0,
          )
          (only_second _ negated.1)))

origination_flows-value :
    (b : Block) (src : Account) (dst srcdlg newdlg : Option Account) (fees moved spent : Int64)
    → IsNonneg (sub64 spent moved)
    → value (origination_flows b src dst srcdlg newdlg fees moved spent) ≡ sub64 moved spent
unfolding origination_flows
origination_flows-value b src dst srcdlg newdlg fees moved spent h =
    let negated = neg64-sub64 moved spent in
    rw (value-append, value-append, value-append, fund_flows-value)
      (rw (burn_flows-value b src FlowType.origination (sub64 spent moved) h) (
        rw (undelegate_flows-value, new_delegate_flows-value, negated.0) (only_second _ negated.1)))

-- A transaction: the flows add up to its balance updates, that is, to the contract and fee updates
-- of its fees and the contract updates of its transfer. No coin is made or lost, whoever the
-- delegates are. They are appended to the flows of the block. The condition: the transfer takes
-- at least as much from its source as it gives.
pub new_transaction_flows-value :
    (b b' : Builder) (src : Account) (dst srcdlg dstdlg : Option Account)
    (feeupd txupd : BalanceUpdates) (block : Block) (flows : List Flow)
    → IsNonneg (sub64 (debited txupd) (credited txupd))
    → new_transaction_flows b src dst srcdlg dstdlg feeupd txupd block ≡ ok (b', flows)
    → (value flows
        ≡ add64
            (add64 (contract_total feeupd) (freezer_total is_fees feeupd))
            (contract_total txupd))
      × (b'.block.flows ≡ b.block.flows ++ flows)
new_transaction_flows-value b b' src dst srcdlg dstdlg feeupd txupd block flows h e =
    let parts = new_transaction_flows-parts b b' src dst srcdlg dstdlg feeupd txupd block flows e in
    let fees = fee_loop-FeesOf b.block src FlowType.transaction true feeupd _ _ parts.paid_eq in
    let moves =
      transaction_flows-value b.block block src dst srcdlg dstdlg parts.fees (credited txupd)
        (debited txupd) parts.rest h parts.rest_eq in
    (rw (← parts.made, value-append, fees.value_eq, moves, contract_total-eq txupd), parts.kept)

-- An origination: the flows add up to its balance updates in the same way, and are appended to
-- the flows of the block. The condition: it takes at least as much from its source as it gives.
pub new_origination_flows-value :
    (b b' : Builder) (src : Account) (dst srcdlg newdlg : Option Account)
    (feeupd origupd : BalanceUpdates) (flows : List Flow)
    → IsNonneg (sub64 (debited origupd) (credited origupd))
    → new_origination_flows b src dst srcdlg newdlg feeupd origupd ≡ ok (b', flows)
    → (value flows
        ≡ add64
            (add64 (contract_total feeupd) (freezer_total is_fees feeupd))
            (contract_total origupd))
      × (b'.block.flows ≡ b.block.flows ++ flows)
new_origination_flows-value b b' src dst srcdlg newdlg feeupd origupd flows h e =
    let parts = new_origination_flows-parts b b' src dst srcdlg newdlg feeupd origupd flows e in
    let fees = fee_loop-FeesOf b.block src FlowType.origination false feeupd _ _ parts.paid_eq in
    let moves =
      origination_flows-value b.block src dst srcdlg newdlg parts.fees (credited origupd)
        (debited origupd) h in
    (rw (← parts.made, value-append, fees.value_eq, moves, contract_total-eq origupd), parts.kept)
