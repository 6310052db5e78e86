-- ===== src/Puller/Flows/Parts.antt =====
-- puller/flow.go: the loops and the flows that several operations share.
use tezos_index.Common.{Bool, true, false, ◌&&◌, not, List, [], ◌∷◌, ◌++◌, Option, none, some, ◌==◌}
use tezos_index.Common.{if◌then◌else◌}
use tezos_index.Common.Int64.{Int64, add64, neg64, lt64, is_neg}
use tezos_index.Rpc.Balance.{BalanceUpdate, BalanceUpdates, FreezerCategory, FreezerUpdate}
use tezos_index.Models.FlowType.{FlowCategory, FlowType}
use tezos_index.Models.Flow.{Flow}
use tezos_index.Models.Account.{Account}
use tezos_index.Models.Block.{Block, new_flow}
use tezos_index.Puller.Builder.{Outcome, ok, deref, ◌>>=◌}

-- An out-flow and an in-flow of one category, with no flag set.
unfoldable pub out_flow : Block → Account → Account → FlowCategory → FlowType → Int64 → Flow
unfolding new_flow
out_flow b acc org c op amount = record (new_flow b acc (some org)) {
  category = c;
  operation = op;
  amount_out = amount;
}

unfoldable pub in_flow : Block → Account → Account → FlowCategory → FlowType → Int64 → Flow
unfolding new_flow
in_flow b acc org c op amount = record (new_flow b acc (some org)) {
  category = c;
  operation = op;
  amount_in = amount;
}

-- Fees paid by the source.
unfoldable pub fee_flow : Block → Account → FlowType → Int64 → Flow
unfolding out_flow
fee_flow b src op change = record (out_flow b src src FlowCategory.balance op (neg64 change)) {
  is_fee = true;
}

-- Fees received by the baker of the block, who must be known.
unfoldable pub baker_fee_flow :
    Block → Account → FlowType → Bool → FreezerUpdate → Outcome (List Flow)
unfolding in_flow
baker_fee_flow b src op is_fee u = elim u.category [
  | FreezerCategory.fees ↦ deref b.baker >>= λ baker. ok (
      record (in_flow b baker src FlowCategory.fees op u.change) {
        is_frozen = true;
        is_fee = is_fee;
      }
      ∷ [])
  | _ ↦ ok []
]

-- The loop over the fee updates of an operation: the flows and the sum of the fees paid. A
-- transaction also marks the baker's flow as a fee (`marked`); the other operations do not.
unfoldable pub fee_loop :
    Block
    → Account
    → FlowType
    → Bool
    → List Flow
    → Int64
    → BalanceUpdates
    → Outcome (List Flow × Int64)
unfolding fee_flow baker_fee_flow
fee_loop b src op marked flows fees [] = ok (flows, fees)
fee_loop b src op marked flows fees (BalanceUpdate.contract u ∷ us) =
    fee_loop b src op marked (flows ++ (fee_flow b src op u.change ∷ []))
      (add64 fees (neg64 u.change)) us
fee_loop b src op marked flows fees (BalanceUpdate.freezer u ∷ us) =
    baker_fee_flow b src op marked u >>= λ fs. fee_loop b src op marked (flows ++ fs) fees us
fee_loop b src op marked flows fees (BalanceUpdate.generic c ∷ us) =
    fee_loop b src op marked flows fees us

-- The loop that sums what an operation moves to the destination, and what it takes from the
-- source to move or burn.
unfoldable pub moved_loop : Int64 → Int64 → BalanceUpdates → Int64 × Int64
moved_loop moved burned_and_moved [] = (moved, burned_and_moved)
moved_loop moved burned_and_moved (BalanceUpdate.contract u ∷ us) =
    let negative = is_neg u.change in
    moved_loop (if negative then moved else add64 moved u.change)
      (if negative then add64 burned_and_moved (neg64 u.change) else burned_and_moved) us
moved_loop moved burned_and_moved (BalanceUpdate.freezer u ∷ us) =
    moved_loop moved burned_and_moved us
moved_loop moved burned_and_moved (BalanceUpdate.generic c ∷ us) =
    moved_loop moved burned_and_moved us

-- `if cond { flows = append(flows, f) }`
abbrev pub flow_if : Bool → Flow → List Flow
flow_if true f = f ∷ []
flow_if false f = []

-- The burned amount, taken from the account that pays for it.
unfoldable pub burn_flows : Block → Account → FlowType → Int64 → List Flow
unfolding out_flow
burn_flows b payer op burned =
    flow_if (lt64 0 burned)
      (record (out_flow b payer payer FlowCategory.balance op burned) { is_burned = true })

-- The delegate of an account loses what the account spent, unless the account is its own delegate.
unfoldable pub undelegate_flows : Block → Option Account → Account → FlowType → Int64 → List Flow
unfolding out_flow
undelegate_flows b none src op amount = []
undelegate_flows b (some dlg) src op amount =
    flow_if (not (dlg.row_id == src.row_id) && lt64 0 amount)
      (out_flow b dlg src FlowCategory.delegation op amount)
