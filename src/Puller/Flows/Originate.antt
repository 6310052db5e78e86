-- ===== src/Puller/Flows/Originate.antt =====
-- puller/flow.go: the flows of originations, those of a user and those of a contract.
use tezos_index.Common.{false, true, List, [], ◌∷◌, ◌++◌, Option, none, some, if◌then◌else◌}
use tezos_index.Common.Int64.{Int64, add64, sub64, neg64, lt64}
use tezos_index.Rpc.Balance.{BalanceUpdate, BalanceUpdates, ContractUpdate}
use tezos_index.Models.FlowType.{FlowCategory, FlowType}
use tezos_index.Models.Flow.{Flow}
use tezos_index.Models.Account.{Account}
use tezos_index.Models.Block.{Block}
use tezos_index.Puller.Builder.{Builder, Outcome, ok, deref, ◌>>=◌, commit}
use tezos_index.Common.{same_bytes}
use tezos_index.Puller.Flows.Parts.{out_flow, in_flow, fee_loop, moved_loop, flow_if, burn_flows}
use tezos_index.Puller.Flows.Parts.{undelegate_flows}

-- The funds of the new contract, deducted from the source and credited to the contract.
unfoldable pub fund_flows : Block → Account → Option Account → Int64 → List Flow
unfolding out_flow in_flow
fund_flows b src none moved = []
fund_flows b src (some dst) moved =
    if lt64 0 moved
    then out_flow b src src FlowCategory.balance FlowType.origination moved
      ∷ in_flow b dst src FlowCategory.balance FlowType.origination moved
      ∷ []
    else []

-- The delegate that the new contract is given gains its funds.
unfoldable pub new_delegate_flows : Block → Option Account → Account → Int64 → List Flow
unfolding in_flow
new_delegate_flows b none src moved = []
new_delegate_flows b (some dlg) src moved =
    flow_if (lt64 0 moved) (in_flow b dlg src FlowCategory.delegation FlowType.origination moved)

-- What follows the two loops of `NewOriginationFlows`.
unfoldable pub origination_flows :
    Block
    → Account
    → Option Account
    → Option Account
    → Option Account
    → Int64
    → Int64
    → Int64
    → List Flow
unfolding fund_flows burn_flows undelegate_flows new_delegate_flows
origination_flows b src dst srcdlg newdlg fees moved burned_and_moved =
    fund_flows b src dst moved
    ++ burn_flows b src FlowType.origination (sub64 burned_and_moved moved)
    ++ undelegate_flows b srcdlg src FlowType.origination (add64 fees burned_and_moved)
    ++ new_delegate_flows b newdlg src moved

-- `NewOriginationFlows`
unfoldable pub new_origination_flows :
    Builder
    → Account
    → Option Account
    → Option Account
    → Option Account
    → BalanceUpdates
    → BalanceUpdates
    → Outcome (Builder × List Flow)
unfolding fee_loop moved_loop origination_flows commit
new_origination_flows b src dst srcdlg newdlg feeupd origupd =
    fee_loop b.block src FlowType.origination false [] 0 feeupd >>= λ paid.
    let sums = moved_loop 0 0 origupd in
    commit b (paid.0 ++ origination_flows b.block src dst srcdlg newdlg paid.1 sums.0 sums.1)

-- What an internal origination has made so far.
pub record Internal : Type 0 where
  pub flows : List Flow
  pub burned : Int64
  pub moved : Int64

-- One contract update: the address tells who pays. A nil destination is dereferenced only where
-- the address is none of the two sources.
unfoldable pub internal_step :
    Block → Account → Account → Option Account → Internal → ContractUpdate → Outcome Internal
unfolding out_flow in_flow
internal_step b origsrc src dst s u =
    if same_bytes u.contract.hash origsrc.hash
    then ok (record s {
      flows =
          s.flows
          ++ (record (out_flow b origsrc origsrc FlowCategory.balance FlowType.origination
                (neg64 u.change)) { is_burned = true }
              ∷ []);
      burned = add64 s.burned (neg64 u.change);
    })
    else if same_bytes u.contract.hash src.hash
    then ok (record s {
      flows =
          s.flows
          ++ (out_flow b src src FlowCategory.balance FlowType.origination (neg64 u.change) ∷ []);
      moved = add64 s.moved (neg64 u.change);
    })
    else deref dst >>= λ d. ok (record s {
      flows =
          s.flows
          ++ flow_if (same_bytes u.contract.hash d.hash)
              (in_flow b d src FlowCategory.balance FlowType.origination u.change);
    })

-- The loop of `NewInternalOriginationFlows`.
unfoldable pub internal_loop :
    Block → Account → Account → Option Account → Internal → BalanceUpdates → Outcome Internal
unfolding internal_step
internal_loop b origsrc src dst s [] = ok s
internal_loop b origsrc src dst s (BalanceUpdate.contract u ∷ us) =
    internal_step b origsrc src dst s u >>= λ s'. internal_loop b origsrc src dst s' us
internal_loop b origsrc src dst s (BalanceUpdate.freezer u ∷ us) =
    internal_loop b origsrc src dst s us
internal_loop b origsrc src dst s (BalanceUpdate.generic c ∷ us) =
    internal_loop b origsrc src dst s us

-- `NewInternalOriginationFlows`
unfoldable pub new_internal_origination_flows :
    Builder
    → Account
    → Account
    → Option Account
    → Option Account
    → Option Account
    → BalanceUpdates
    → Outcome (Builder × List Flow)
unfolding internal_loop undelegate_flows commit
new_internal_origination_flows b origsrc src dst origdlg srcdlg upd =
    internal_loop b.block origsrc src dst (record { flows = []; burned = 0; moved = 0 }) upd
    >>= λ s. commit b (
        s.flows
        ++ undelegate_flows b.block origdlg origsrc FlowType.origination s.burned
        ++ undelegate_flows b.block srcdlg src FlowType.origination s.moved)
