-- ===== src/Puller/Flows/Manager.antt =====
-- puller/flow.go: the flows of delegations and reveals.
use tezos_index.Common.{Bool, true, false, ◌&&◌, not, List, [], ◌∷◌, ◌++◌, Option, none, some, ◌==◌}
use tezos_index.Common.{if◌then◌else◌}
use tezos_index.Common.Int64.{Int64, add64, sub64, lt64}
use tezos_index.Rpc.Balance.{BalanceUpdates}
use tezos_index.Models.FlowType.{FlowCategory, FlowType}
use tezos_index.Models.Flow.{Flow}
use tezos_index.Models.Account.{Account, balance}
use tezos_index.Models.Block.{Block}
use tezos_index.Puller.Builder.{Builder, Outcome, ◌>>=◌, commit}
use tezos_index.Puller.Flows.Parts.{out_flow, in_flow, fee_loop, flow_if, undelegate_flows}

abbrev pub is_balance : FlowCategory → Bool
is_balance FlowCategory.balance = true
is_balance _ = false

-- What the flows that the block already has take from the balance of an account.
unfoldable pub pending_loop : Account → Int64 → List Flow → Int64
pending_loop src pending [] = pending
pending_loop src pending (f ∷ fs) =
    pending_loop src
      (if f.account_id == src.row_id && is_balance f.category
        then add64 pending (sub64 f.amount_out f.amount_in)
        else pending)
      fs

-- `ndlg != nil && odlg != nil && ndlg.RowId == odlg.RowId`
abbrev pub same_delegate : Option Account → Option Account → Bool
same_delegate (some n) (some o) = n.row_id == o.row_id
same_delegate _ _ = false

-- The old delegate loses the balance that is not spent yet.
unfoldable pub leave_flows : Block → Option Account → Account → Int64 → List Flow
unfolding out_flow
leave_flows b none src amount = []
leave_flows b (some odlg) src amount =
    flow_if (not (odlg.row_id == src.row_id))
      (out_flow b odlg src FlowCategory.delegation FlowType.delegation amount)

-- The new delegate gets it, less the fees of the delegation.
unfoldable pub join_flows : Block → Option Account → Account → Int64 → List Flow
unfolding in_flow
join_flows b none src amount = []
join_flows b (some ndlg) src amount =
    flow_if (not (ndlg.row_id == src.row_id) && lt64 0 amount)
      (in_flow b ndlg src FlowCategory.delegation FlowType.delegation amount)

-- A renewed delegation deducts the fees; any other moves the balance from one delegate to the next.
unfoldable pub redelegate_flows :
    Block → Account → Option Account → Option Account → Int64 → List Flow
unfolding undelegate_flows leave_flows join_flows pending_loop balance
redelegate_flows b src ndlg odlg fees =
    if same_delegate ndlg odlg
    then undelegate_flows b odlg src FlowType.delegation fees
    else let unspent = sub64 (balance src) (pending_loop src 0 b.flows) in
      leave_flows b odlg src unspent ++ join_flows b ndlg src (sub64 unspent fees)

-- `NewDelegationFlows`: the new and the old delegate may be nil.
unfoldable pub new_delegation_flows :
    Builder
    → Account
    → Option Account
    → Option Account
    → BalanceUpdates
    → Outcome (Builder × List Flow)
unfolding fee_loop redelegate_flows commit
new_delegation_flows b src ndlg odlg upd =
    fee_loop b.block src FlowType.delegation false [] 0 upd >>= λ paid.
    commit b (paid.0 ++ redelegate_flows b.block src ndlg odlg paid.1)

-- `NewRevealFlows`
unfoldable pub new_reveal_flows :
    Builder → Account → Option Account → BalanceUpdates → Outcome (Builder × List Flow)
unfolding fee_loop undelegate_flows commit
new_reveal_flows b src dlg upd = fee_loop b.block src FlowType.reveal false [] 0 upd >>= λ paid.
    commit b (paid.0 ++ undelegate_flows b.block dlg src FlowType.reveal paid.1)
