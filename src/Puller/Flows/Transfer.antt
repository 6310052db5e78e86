-- ===== src/Puller/Flows/Transfer.antt =====
-- puller/flow.go: the flows of transactions, those of a user and those of a contract.
use tezos_index.Common.{true, ◌&&◌, not, List, [], ◌∷◌, ◌++◌, Option, none, some, ◌==◌}
use tezos_index.Common.{if◌then◌else◌}
use tezos_index.Common.Int64.{Int64, add64, sub64, lt64}
use tezos_index.Rpc.Balance.{BalanceUpdates}
use tezos_index.Micheline.Tree.{Prim, get_vesting_balance}
use tezos_index.Models.FlowType.{FlowCategory, FlowType}
use tezos_index.Models.Flow.{Flow}
use tezos_index.Models.Account.{Account}
use tezos_index.Models.Block.{Block, age}
use tezos_index.Puller.Builder.{Builder, BuildError, Outcome, ok, err, deref, ◌>>=◌, commit}
use tezos_index.Puller.Flows.Parts.{out_flow, in_flow, fee_loop, moved_loop, flow_if, burn_flows}
use tezos_index.Puller.Flows.Parts.{undelegate_flows}

-- The generations and the age of the coins of the source.
unfoldable pub with_age : Block → Account → Flow → Flow
unfolding age
with_age block src f = record f {
  token_gen_min = src.token_gen_min;
  token_gen_max = src.token_gen_max;
  token_age = age block src.last_in;
}

-- The moved amount, deducted from the source and credited to the destination.
unfoldable pub move_flows : Block → Block → Account → Option Account → Int64 → List Flow
unfolding out_flow in_flow with_age
move_flows b block src none moved = []
move_flows b block src (some dst) moved =
    if lt64 0 moved
    then with_age block src (out_flow b src src FlowCategory.balance FlowType.transaction moved)
      ∷ with_age block src (in_flow b dst src FlowCategory.balance FlowType.transaction moved)
      ∷ []
    else []

-- The delegate of the destination gains the moved amount, unless the destination is its own
-- delegate. A delegate without a destination is a nil dereference.
unfoldable pub delegate_flows :
    Block → Option Account → Option Account → Account → FlowType → Int64 → Outcome (List Flow)
unfolding in_flow
delegate_flows b none dst src op moved = ok []
delegate_flows b (some dlg) dst src op moved = deref dst >>= λ d. ok (
    flow_if (not (dlg.row_id == d.row_id) && lt64 0 moved)
      (in_flow b dlg src FlowCategory.delegation op moved))

-- What follows the two loops of `NewTransactionFlows`, for the fees paid and the two sums.
unfoldable pub transaction_flows :
    Block
    → Block
    → Account
    → Option Account
    → Option Account
    → Option Account
    → Int64
    → Int64
    → Int64
    → Outcome (List Flow)
unfolding move_flows burn_flows undelegate_flows delegate_flows
transaction_flows b block src dst srcdlg dstdlg fees moved burned_and_moved =
    delegate_flows b dstdlg dst src FlowType.transaction moved >>= λ gained. ok (
      move_flows b block src dst moved
      ++ burn_flows b src FlowType.transaction (sub64 burned_and_moved moved)
      ++ undelegate_flows b srcdlg src FlowType.transaction (add64 fees burned_and_moved)
      ++ gained)

-- `NewTransactionFlows`: the destination and the two delegates may be nil.
unfoldable pub new_transaction_flows :
    Builder
    → Account
    → Option Account
    → Option Account
    → Option Account
    → BalanceUpdates
    → BalanceUpdates
    → Block
    → Outcome (Builder × List Flow)
unfolding fee_loop moved_loop transaction_flows commit
new_transaction_flows b src dst srcdlg dstdlg feeupd txupd block =
    fee_loop b.block src FlowType.transaction true [] 0 feeupd >>= λ paid.
    let sums = moved_loop 0 0 txupd in
    transaction_flows b.block block src dst srcdlg dstdlg paid.1 sums.0 sums.1 >>= λ flows.
    commit b (paid.0 ++ flows)

-- A vesting contract vests the moved amount before it pays it out; its storage must be readable.
unfoldable pub vest_flows : Block → Account → Option Prim → Int64 → Outcome (List Flow)
unfolding in_flow get_vesting_balance
vest_flows b src storage moved =
    if src.is_vesting
    then elim (get_vesting_balance storage) [
      | none ↦ err BuildError.bad_vesting_storage
      | some vesting ↦ ok (in_flow b src src FlowCategory.balance FlowType.vest moved ∷ [])
    ]
    else ok []

-- The burn of an internal operation is paid by the source of the outer one, whose delegate loses it.
unfoldable pub outer_burn_flows : Block → Account → Option Account → FlowType → Int64 → List Flow
unfolding burn_flows undelegate_flows
outer_burn_flows b origsrc origdlg op burned =
    burn_flows b origsrc op burned ++ undelegate_flows b origdlg origsrc op burned

-- `NewInternalTransactionFlows`
unfoldable pub new_internal_transaction_flows :
    Builder
    → Account
    → Account
    → Option Account
    → Option Account
    → Option Account
    → Option Account
    → BalanceUpdates
    → Option Prim
    → Block
    → Outcome (Builder × List Flow)
unfolding moved_loop vest_flows move_flows outer_burn_flows undelegate_flows delegate_flows commit
new_internal_transaction_flows b origsrc src dst origdlg srcdlg dstdlg txupd storage block =
    let sums = moved_loop 0 0 txupd in
    let moved = sums.0 in
    vest_flows b.block src storage moved >>= λ vested.
    delegate_flows b.block dstdlg dst src FlowType.transaction moved >>= λ gained. commit b (
      vested
      ++ move_flows b.block block src dst moved
      ++ outer_burn_flows b.block origsrc origdlg FlowType.transaction (sub64 sums.1 moved)
      ++ undelegate_flows b.block srcdlg src FlowType.transaction moved
      ++ gained)
