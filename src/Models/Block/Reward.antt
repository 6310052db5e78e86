-- ===== src/Models/Block/Reward.antt =====
-- puller/models/block.go: `BlockReward`, what the baker of a block earns.
use tezos_index.Common.{List, [], ◌∷◌, Option, none, some, if◌then◌else◌, ◌==◌, length}
use tezos_index.Common.Int64.{Int64, add64, mul64, lt64}
use tezos_index.Chain.OpType.{OpType}
use tezos_index.Chain.Params.{Params}
use tezos_index.Models.Op.{Op}
use tezos_index.Models.Block.{Block}

-- The slots that an endorsement lists, from the RPC data: `none` where that is missing or of
-- another type, which panics.
count_slots : (Op → Option (List Int64)) → OpType → Op → Int64 → Option Int64
count_slots endorsed OpType.endorsement o n = elim (endorsed o) [
  | none ↦ none
  | some slots ↦ some (add64 n (length slots))
]
count_slots endorsed _ o n = some n

-- The loop over the operations.
unfoldable pub endorsements : (Op → Option (List Int64)) → Int64 → List Op → Option Int64
unfolding count_slots
endorsements endorsed n [] = some n
endorsements endorsed n (o ∷ os) = elim (count_slots endorsed o.type o n) [
  | none ↦ none
  | some n' ↦ endorsements endorsed n' os
]

-- `BlockReward`. Protocol 5 takes the reward from floating-point numbers: `scaled` has the base
-- reward, the priority, the number of endorsements and the number of endorsers.
unfoldable pub block_reward :
    (Op → Option (List Int64))
    → (Int64 → Int64 → Int64 → Int64 → Int64)
    → Block
    → Params
    → Option Int64
unfolding endorsements
block_reward endorsed scaled b p =
    let base : Int64 = if lt64 b.cycle p.no_reward_cycles then 0 else p.block_reward in
    let per_slot = if lt64 0 b.priority then p.block_reward_v6.1 else p.block_reward_v6.0 in
    if lt64 p.version 5 then some base else elim (endorsements endorsed 0 b.ops) [
      | none ↦ none
      | some n ↦ some (
          if p.version == 5
          then scaled base b.priority n p.endorsers_per_block
          else mul64 n per_slot)
    ]
