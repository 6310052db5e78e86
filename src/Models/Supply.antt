-- ===== src/Models/Supply.antt =====
-- puller/models/supply.go: the supply of the network after a block.
pub mod Totals
pub mod Order
pub mod Growth
use tezos_index.Common.{ℕ, Bool, List, [], ◌∷◌, if◌then◌else◌}
use tezos_index.Common.Int64.{Int64, add64, sub64}
use tezos_index.Chain.OpType.{OpType}
use tezos_index.Models.FlowType.{FlowCategory, FlowType}
use tezos_index.Models.Flow.{Flow}
use tezos_index.Models.Op.{Op}
use tezos_index.Models.Account.{Account, staking_balance}
use tezos_index.Models.Block.{Block}

pub record Supply : Type 0 where
  pub row_id : ℕ
  pub height : Int64
  pub cycle : Int64
  pub timestamp : ℕ
  pub total : Int64
  pub activated : Int64
  pub unclaimed : Int64
  pub vested : Int64
  pub unvested : Int64
  pub circulating : Int64
  pub delegated : Int64
  pub staking : Int64
  pub active_delegated : Int64
  pub active_staking : Int64
  pub inactive_delegated : Int64
  pub inactive_staking : Int64
  pub minted : Int64
  pub minted_baking : Int64
  pub minted_endorsing : Int64
  pub minted_seeding : Int64
  pub minted_airdrop : Int64
  pub burned : Int64
  pub burned_double_baking : Int64
  pub burned_double_endorse : Int64
  pub burned_origination : Int64
  pub burned_implicit : Int64
  pub burned_seed_miss : Int64
  pub frozen : Int64
  pub frozen_deposits : Int64
  pub frozen_rewards : Int64
  pub frozen_fees : Int64

-- What `Update` does before its loops.
unfoldable pub open_block : Supply → Block → Supply
open_block s b =
    let deposits = add64 s.frozen_deposits (sub64 b.deposits b.unfrozen_deposits) in
    let rewards = add64 s.frozen_rewards (sub64 b.rewards b.unfrozen_rewards) in
    let fees = add64 s.frozen_fees (sub64 b.fees b.unfrozen_fees) in
    record s {
      row_id = 0;
      height = b.height;
      cycle = b.cycle;
      timestamp = b.timestamp;
      total = add64 s.total (sub64 b.rewards b.burned_supply);
      minted = add64 s.minted b.rewards;
      burned = add64 s.burned b.burned_supply;
      frozen_deposits = deposits;
      frozen_rewards = rewards;
      frozen_fees = fees;
      frozen = add64 (add64 deposits fees) rewards;
    }

-- The freezer sub-account that a burned amount leaves.
unfoldable pub burn_frozen : FlowCategory → Supply → Int64 → Supply
burn_frozen FlowCategory.rewards s amount = record s {
  frozen_rewards = sub64 s.frozen_rewards amount;
}
burn_frozen FlowCategory.fees s amount = record s { frozen_fees = sub64 s.frozen_fees amount }
burn_frozen _ s amount = s

unfoldable pub mint_airdrop : Supply → Flow → Supply
mint_airdrop s f = record s {
  total = add64 s.total f.amount_in;
  minted_airdrop = add64 s.minted_airdrop f.amount_in;
  minted = add64 s.minted f.amount_in;
}

-- The switch on the operation of a flow.
unfoldable pub update_flow : FlowType → Supply → Flow → Supply
unfolding burn_frozen mint_airdrop
update_flow FlowType.activation s f = record s {
  activated = add64 s.activated f.amount_in;
  unclaimed = sub64 s.unclaimed f.amount_in;
}
update_flow FlowType.vest s f = record s {
  vested = add64 s.vested f.amount_in;
  unvested = sub64 s.unvested f.amount_in;
}
update_flow FlowType.nonce_revelation s f =
    if f.is_burned
    then burn_frozen f.category
        (record s {
          burned_seed_miss = add64 s.burned_seed_miss f.amount_out;
          frozen = sub64 s.frozen f.amount_out;
        })
        f.amount_out
    else s
update_flow FlowType.invoice s f = mint_airdrop s f
update_flow FlowType.airdrop s f = mint_airdrop s f
update_flow _ s f = s

unfoldable pub update_flows : Supply → List Flow → Supply
unfolding update_flow
update_flows s [] = s
update_flows s (f ∷ fs) = update_flows (update_flow f.operation s f) fs

-- The switch on the type of an operation.
unfoldable pub update_op : OpType → Supply → Op → Supply
update_op OpType.seed_nonce_revelation s o = record s {
  minted_seeding = add64 s.minted_seeding o.reward;
}
update_op OpType.endorsement s o = record s { minted_endorsing = add64 s.minted_endorsing o.reward }
update_op OpType.double_baking_evidence s o = record s {
  burned_double_baking = add64 s.burned_double_baking o.burned;
}
update_op OpType.double_endorsement_evidence s o = record s {
  burned_double_endorse = add64 s.burned_double_endorse o.burned;
}
update_op OpType.origination s o = record s {
  burned_origination = add64 s.burned_origination o.burned;
}
update_op OpType.transaction s o = record s { burned_implicit = add64 s.burned_implicit o.burned }
update_op _ s o = s

unfoldable pub update_ops : Supply → List Op → Supply
unfolding update_op
update_ops s [] = s
update_ops s (o ∷ os) = update_ops (update_op o.type s o) os

-- One delegate, whose own balance stakes with the balance delegated to it.
unfoldable pub count_delegate : Supply → Account → Supply
unfolding staking_balance
count_delegate s acc =
    let sb = staking_balance acc in
    let db = acc.delegated_balance in
    let active = acc.is_active_delegate in
    record s {
      staking = add64 s.staking sb;
      delegated = add64 s.delegated db;
      active_staking = if active then add64 s.active_staking sb else s.active_staking;
      active_delegated = if active then add64 s.active_delegated db else s.active_delegated;
      inactive_staking = if active then s.inactive_staking else add64 s.inactive_staking sb;
      inactive_delegated = if active then s.inactive_delegated else add64 s.inactive_delegated db;
    }

unfoldable pub count_delegates : Supply → List Account → Supply
unfolding count_delegate
count_delegates s [] = s
count_delegates s (acc ∷ accs) = count_delegates (count_delegate s acc) accs

-- The totals across delegates start at zero.
unfoldable pub reset_staking : Supply → Supply
reset_staking s = record s {
  staking = 0;
  delegated = 0;
  active_staking = 0;
  active_delegated = 0;
  inactive_staking = 0;
  inactive_delegated = 0;
}

-- What `Update` computes last.
unfoldable pub close_block : Supply → Supply
close_block s = record s {
  minted_baking =
      sub64 (sub64 (sub64 s.minted s.minted_seeding) s.minted_endorsing) s.minted_airdrop;
  circulating = sub64 s.total s.unvested;
}

-- `Update`, with the delegates in the order in which the map is ranged over.
unfoldable pub update : Supply → Block → List Account → Supply
unfolding open_block update_flows update_ops reset_staking count_delegates close_block
update s b delegates = close_block (
    count_delegates (reset_staking (update_ops (update_flows (open_block s b) b.flows) b.ops))
      delegates)

-- `Rollback`
unfoldable pub rollback : Supply → Block → Supply
rollback s b = record s { height = b.height; cycle = b.cycle }
