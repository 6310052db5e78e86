-- ===== src/Puller/Index/Income/Changes.antt =====
-- puller/index/incomeindex.go: what a flow and an operation change in an income sheet.
use tezos_index.Common.{
  ℕ, Bool, false, ◌&&◌, List, [], ◌∷◌, Option, none, some, ◌+◌, ◌*◌, ◌-◌, ◌^◌, if◌then◌else◌, ltb,
  leb,
}
use tezos_index.Common.Int64.{Int64}
use tezos_index.Chain.OpType.{OpType}
use tezos_index.Models.Flow.{Flow}
use tezos_index.Models.FlowType.{FlowCategory, FlowType}
use tezos_index.Models.Op.{Op}
use tezos_index.Models.Income.{Column}
use tezos_index.Models.Block.{Block}
use tezos_index.Models.Block.Totals.{ones_count}

-- Assignments `in.Field += amount * mul` to one row.
abbrev pub Change : Type 0
Change = List (Column × Int64)

-- `strconv.ParseUint(s, 10, 32)` without its error: a bad digit gives 0, a number out of range the
-- largest one.
unfoldable pub parse_uint32 : ℕ → List ℕ → ℕ
parse_uint32 n [] = n
parse_uint32 n (c ∷ cs) =
    let n' = n * 10 + (c - 48) in
    let rest = parse_uint32 n' cs in
    if leb 48 c && leb c 57 then (if ltb n' (2 ^ 32) then rest else 2 ^ 32 - 1) else 0

-- The default case of the switch: fees from all kinds of operations.
unfoldable pub fee_change : FlowCategory → Int64 → Change
fee_change FlowCategory.fees i = (Column.fees_income, i) ∷ []
fee_change _ i = []

-- What a frozen flow changes in the row of its account. `stolen` says that the block has a priority
-- above 0.
unfoldable pub flow_change : FlowType → FlowCategory → Bool → Bool → Int64 → Int64 → Change
unfolding fee_change
flow_change FlowType.baking FlowCategory.deposits stolen burned i o = (Column.total_bonds, i) ∷ []
flow_change FlowType.baking FlowCategory.rewards stolen burned i o =
    (Column.total_income, i)
    ∷ (Column.baking_income, i)
    ∷ (if stolen then (Column.stolen_baking_income, i) ∷ [] else [])
flow_change FlowType.baking _ stolen burned i o = []
flow_change FlowType.endorsement FlowCategory.deposits stolen burned i o =
    (Column.total_bonds, i) ∷ []
flow_change FlowType.endorsement FlowCategory.rewards stolen burned i o =
    (Column.total_income, i) ∷ (Column.endorsing_income, i) ∷ []
flow_change FlowType.endorsement _ stolen burned i o = []
flow_change FlowType.nonce_revelation FlowCategory.rewards stolen false i o =
    (Column.total_income, i) ∷ (Column.seed_income, i) ∷ []
flow_change FlowType.nonce_revelation _ stolen burned i o = []
flow_change FlowType.denounciation FlowCategory.deposits stolen burned i o =
    (Column.lost_accusation_deposits, o) ∷ (Column.total_lost, o) ∷ []
flow_change FlowType.denounciation FlowCategory.rewards stolen burned i o =
    (Column.lost_accusation_rewards, o) ∷ (Column.total_lost, o) ∷ []
flow_change FlowType.denounciation FlowCategory.fees stolen burned i o =
    (Column.lost_accusation_fees, o) ∷ (Column.total_lost, o) ∷ []
flow_change FlowType.denounciation _ stolen burned i o = (Column.total_lost, o) ∷ []
flow_change _ category stolen burned i o = fee_change category i

-- A baking reward of a block that was stolen.
unfoldable pub is_stolen_reward : FlowType → FlowCategory → Bool → Bool
is_stolen_reward FlowType.baking FlowCategory.rewards stolen = stolen
is_stolen_reward _ _ stolen = false

-- What an operation changes in the row of its sender, where it changes one.
unfoldable pub op_change : OpType → Op → Option Change
unfolding parse_uint32 ones_count
op_change OpType.seed_nonce_revelation o = some ((Column.n_seeds_revealed, 1) ∷ [])
op_change OpType.endorsement o =
    some ((Column.n_slots_endorsed, ones_count 32 (parse_uint32 0 o.op_data)) ∷ [])
op_change OpType.double_baking_evidence o = some ((Column.double_baking_income, o.reward) ∷ [])
op_change OpType.double_endorsement_evidence o =
    some ((Column.double_endorsing_income, o.reward) ∷ [])
op_change _ o = none

-- What a burned nonce revelation changes. Lost fees are booked with the fees of the whole block.
unfoldable pub nonce_change : Block → FlowCategory → Int64 → Change
nonce_change b FlowCategory.rewards o =
    (Column.total_lost, o) ∷ (Column.lost_revelation_rewards, o) ∷ []
nonce_change b FlowCategory.fees o =
    (Column.total_lost, o) ∷ (Column.lost_revelation_fees, b.fees) ∷ []
nonce_change b _ o = (Column.total_lost, o) ∷ []

unfoldable pub is_burned_nonce : Flow → Bool
is_burned_nonce f = elim f.operation [ FlowType.nonce_revelation ↦ f.is_burned | _ ↦ false ]
