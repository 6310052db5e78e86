-- ===== src/IncomeTests.antt =====
-- puller/index/incomeindex.go on a block that was stolen from its first baker.
use tezos_index.Common.{
  ℕ, Bool, true, false, ◌&&◌, List, [], ◌∷◌, Option, none, some, ◌==◌, ◌≡◌, ◌≢◌, refl, arith, map,
  if◌then◌else◌, ltb, Bool-cases, inl, inr, subst,
}
use tezos_index.Common.Int64.{Int64, add64, mul64, sub64, lt64, rem64}
use tezos_index.Chain.Params.{Params, new_params, is_cycle_start}
use tezos_index.Chain.OpType.{OpType}
use tezos_index.Models.Flow.{Flow, zero_flow}
use tezos_index.Models.FlowType.{FlowCategory, FlowType}
use tezos_index.Models.Op.{Op}
use tezos_index.Models.Right.{Right, zero_right}
use tezos_index.Models.Income.{Income, Column, zero_income, get, add, add_all, grade}
use tezos_index.Models.Income.Laws.{IsRanged, total}
use tezos_index.Models.Block.{Block, zero_block}
use tezos_index.Models.Block.Reward.{block_reward}
use tezos_index.Puller.Builder.{BuildError, Outcome, ok, err, panic, deref}
use tezos_index.Puller.Index.Income.{
  Table, Booking, update_block_income, update_nonce_revelations, connect_updates, disconnect_block,
}
use tezos_index.Puller.Index.Income.Turns.{block_turns}
use tezos_index.Puller.Index.Income.Settle.{posted}
use tezos_index.Puller.Index.Income.Sums.{IsSum, update_block_income-IsSum}
use tezos_index.Puller.Index.Income.Restore.{disconnect_block-connect_updates}
use tezos_index.Puller.Index.Income.Undo.{IsKept}
use tezos_index.Puller.Index.Income.Net.{update_block_income-net, disconnect_block-dropped}
use tezos_index.TotalsTests.{transfer}

-- Cycles of 8 blocks, in protocol 4.
abbrev income_params : Params
unfolding new_params
income_params = record new_params {
  version = 4;
  blocks_per_cycle = 8;
  block_reward = 16;
  endorsement_reward = 2;
}

-- Account 1 baked the block with priority 1; account 3 endorsed two slots of its parent; account 2
-- lost its seed nonce of the cycle before.
abbrev reward_flow : Flow
reward_flow = record zero_flow {
  account_id = 1;
  operation = FlowType.baking;
  category = FlowCategory.rewards;
  amount_in = 15;
  is_frozen = true;
}

abbrev burn_flow : Flow
burn_flow = record zero_flow {
  account_id = 2;
  operation = FlowType.nonce_revelation;
  category = FlowCategory.rewards;
  amount_out = 7;
  is_burned = true;
  is_frozen = true;
}

abbrev endorsed_op : Op
endorsed_op = record transfer { type = OpType.endorsement; sender_id = 3; op_data = 51 ∷ [] }

abbrev first_right : Right
first_right = record zero_right { account_id = 2 }

abbrev missed_right : Right
missed_right = record zero_right { account_id = 4; is_missed = true }

abbrev stolen : Block
stolen = record (zero_block income_params) {
  height = 44;
  cycle = 5;
  priority = 1;
  baker_id = 1;
  flows = reward_flow ∷ burn_flow ∷ [];
  ops = endorsed_op ∷ [];
}

abbrev booking : Booking
booking = record {
  block = stolen;
  parent = some (record stolen { height = 43; slots_endorsed = 3 });
  baking = first_right ∷ [];
  endorsing = missed_right ∷ [];
}

abbrev no_slots : Op → Option (List Int64)
no_slots o = none

abbrev no_scale : Int64 → Int64 → Int64 → Int64 → Int64
no_scale base priority n endorsers = base

-- A baker with one block and one slot to come.
abbrev sheet : Income
unfolding grade
sheet = grade (record zero_income {
  expected_income = 18;
  n_baking_rights = 1;
  n_endorsing_rights = 1;
  total_income = 5;
  baking_income = 3;
  seed_income = 2;
})

-- Accounts 1 to 4 in the cycles 4 and 5.
abbrev has_row : Int64 → ℕ → Bool
has_row c id = ltb 3 c && (ltb c 6 && ltb id 5)

abbrev opening : Table
opening c id = if has_row c id then some sheet else none

sheet-IsRanged : IsRanged sheet
unfolding get sheet
sheet-IsRanged Column.n_blocks_baked = omega arith
sheet-IsRanged c = omega arith

opening-row : (c : Int64) (id : ℕ) (r : Income) → opening c id ≡ some r → sheet ≡ r
opening-row c id r e = elim (Bool-cases (has_row c id)) [
  | inl h ↦ cc (rw h at e)
  | inr h ↦ cc (rw h at e)
]

opening-IsKept : IsKept opening
unfolding sheet grade lt64 add64
opening-IsKept c id r e =
    subst (λ (x : Income). IsRanged x × (grade x ≡ x)) (opening-row c id r e) (sheet-IsRanged, refl)

abbrev written : Outcome Table → Table
written (ok t) = t
written (err x) = opening
written panic = opening

-- After the block update, and after the nonce revelations.
abbrev booked : Table
unfolding update_block_income
booked = written (update_block_income no_slots no_scale booking false opening)

abbrev connected : Table
unfolding update_nonce_revelations
connected = written (update_nonce_revelations no_slots no_scale booking false booked)

abbrev value : Column → Option Income → Int64
unfolding get
value c none = 0
value c (some r) = get c r

-- The real baker has the reward, the first one has lost a block and a nonce of the cycle before.
stolen_block :
    (map
        (λ c. value c (connected 5 1))
        (Column.total_income ∷ Column.stolen_baking_income ∷ Column.n_blocks_stolen ∷ [])
      ≡ 20 ∷ 15 ∷ 1 ∷ [])
    × (map (λ c. value c (connected 5 2)) (Column.missed_baking_income ∷ Column.n_blocks_lost ∷ [])
        ≡ 16 ∷ 1 ∷ [])
    × (value Column.n_slots_endorsed (connected 5 3) ≡ 2)
    × (value Column.missed_endorsing_income (connected 5 4) ≡ 2)
    × (value Column.lost_revelation_rewards (connected 4 2) ≡ 7)
unfolding value connected booked update_block_income update_nonce_revelations get sheet add64 mul64
    add add_all sub64 lt64 income_params
stolen_block = (refl, refl, refl, refl, refl)

disconnect_block-connect_updates_example :
    (connect_updates no_slots no_scale booking opening ≡ ok connected)
    × (t' : Table) × (disconnect_block no_slots no_scale booking connected ≡ ok t')
    × ((c : Int64) (id : ℕ) → t' c id ≡ opening c id)
unfolding booked connected update_block_income update_nonce_revelations is_cycle_start lt64 rem64
    sub64 income_params
disconnect_block-connect_updates_example =
    disconnect_block-connect_updates no_slots no_scale booking opening booked connected
      opening-IsKept (omega arith) refl refl refl

opening-IsSum : (c : Int64) (id : ℕ) (r : Income) → opening c id ≡ some r → IsRanged r × IsSum r
unfolding sheet get add64
opening-IsSum c id r e =
    subst (λ (x : Income). IsRanged x × IsSum x) (opening-row c id r e) (sheet-IsRanged, refl)

-- The row of the real baker after the update.
abbrev row_or_zero : Option Income → Income
row_or_zero none = zero_income
row_or_zero (some r) = r

abbrev real_baker : Income
unfolding booked
real_baker = row_or_zero (booked 5 1)

update_block_income-IsSum_example : IsRanged real_baker × IsSum real_baker
unfolding real_baker booked update_block_income lt64 income_params
update_block_income-IsSum_example =
    update_block_income-IsSum no_slots no_scale booking false opening booked opening-IsSum refl 5 1
      real_baker refl

update_block_income-net_example :
    (reward : Int64) × (deref (block_reward no_slots no_scale stolen income_params) ≡ ok reward)
    × ((c : Int64) (id : ℕ) (r : Income)
        → opening c id ≡ some r
        → (r' : Income) × (booked c id ≡ some r')
          × ((col : Column)
              → get col r' ≡ (
                  if c == 5
                  then add64 (get col r) (total 1 col (posted id (block_turns booking reward)))
                  else get col r)))
unfolding booked update_block_income lt64 income_params
update_block_income-net_example =
    update_block_income-net no_slots no_scale booking false opening booked
      (λ c id r e. (opening-IsKept c id r e).0) refl

-- An endorser without a row.
abbrev unknown : Booking
unknown = record booking {
  block = record stolen { ops = (record endorsed_op { sender_id = 9 }) ∷ [] };
}

abbrev left : Table
unfolding update_nonce_revelations
left = written (update_nonce_revelations no_slots no_scale unknown false opening)

disconnect_block-dropped_example : disconnect_block no_slots no_scale unknown left ≢ ok opening
unfolding update_block_income update_nonce_revelations connect_updates left lt64 sub64 income_params
disconnect_block-dropped_example =
    disconnect_block-dropped no_slots no_scale unknown opening left opening BuildError.no_income
      (omega arith) refl refl
