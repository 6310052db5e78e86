-- ===== src/Puller/Flows/Slashing.antt =====
-- puller/flow.go: the flows of a proof that an account baked or endorsed twice. All updates but the
-- last are penalties of the offender; the last is the reward of the accuser.
use tezos_index.Common.{List, [], ◌∷◌, ◌++◌, true}
use tezos_index.Common.Int64.{neg64}
use tezos_index.Rpc.Balance.{BalanceUpdate, BalanceUpdates, FreezerCategory, FreezerUpdate}
use tezos_index.Models.FlowType.{FlowCategory, FlowType}
use tezos_index.Models.Flow.{Flow}
use tezos_index.Models.Account.{Account}
use tezos_index.Models.Block.{Block}
use tezos_index.Puller.Builder.{Builder, Outcome, ok, panic, ◌>>=◌, commit}
use tezos_index.Puller.Flows.Parts.{out_flow, in_flow}

-- The last update: nothing unless it is a reward.
unfoldable pub accuser_flows : Block → Account → FreezerUpdate → List Flow
unfolding in_flow
accuser_flows b accuser u = elim u.category [
  | FreezerCategory.rewards ↦
      record (in_flow b accuser accuser FlowCategory.rewards FlowType.denounciation u.change) {
        is_frozen = true;
      }
      ∷ []
  | _ ↦ []
]

-- The sub-account of a penalty; an unknown category leaves the zero value, the rewards.
abbrev pub penalty_category : FreezerCategory → FlowCategory
penalty_category FreezerCategory.deposits = FlowCategory.deposits
penalty_category FreezerCategory.rewards = FlowCategory.rewards
penalty_category FreezerCategory.fees = FlowCategory.fees
penalty_category FreezerCategory.other = FlowCategory.rewards

unfoldable pub penalty_flow : Block → Account → Account → FreezerUpdate → Flow
unfolding out_flow
penalty_flow b accuser offender u =
    record (out_flow b offender accuser (penalty_category u.category) FlowType.denounciation
      (neg64 u.change)) { is_frozen = true }

-- The loop; an update that is not of the freezer fails the type assertion.
unfoldable pub denounce_loop :
    Block → Account → Account → List Flow → BalanceUpdates → Outcome (List Flow)
unfolding accuser_flows penalty_flow
denounce_loop b accuser offender flows [] = ok flows
denounce_loop b accuser offender flows (BalanceUpdate.freezer u ∷ []) =
    ok (flows ++ accuser_flows b accuser u)
denounce_loop b accuser offender flows (BalanceUpdate.freezer u ∷ v ∷ us) =
    denounce_loop b accuser offender (flows ++ (penalty_flow b accuser offender u ∷ [])) (v ∷ us)
denounce_loop b accuser offender flows (BalanceUpdate.contract u ∷ us) = panic
denounce_loop b accuser offender flows (BalanceUpdate.generic c ∷ us) = panic

-- `NewDoubleBakingFlows`
unfoldable pub new_double_baking_flows :
    Builder → Account → Account → BalanceUpdates → Outcome (Builder × List Flow)
unfolding denounce_loop commit
new_double_baking_flows b accuser offender upd =
    denounce_loop b.block accuser offender [] upd >>= commit b

-- `NewDoubleEndorsingFlows`
unfoldable pub new_double_endorsing_flows :
    Builder → Account → Account → BalanceUpdates → Outcome (Builder × List Flow)
unfolding denounce_loop commit
new_double_endorsing_flows b accuser offender upd =
    denounce_loop b.block accuser offender [] upd >>= commit b
