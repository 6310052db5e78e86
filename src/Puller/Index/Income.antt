-- ===== src/Puller/Index/Income.antt =====
-- puller/index/incomeindex.go: `UpdateBlockIncome` and `UpdateNonceRevelations`, which book a block
-- into the income sheets of the bakers, and out again when it is rolled back.
pub mod Changes
pub mod Turns
pub mod Exec
pub mod Settle
pub mod Rows
pub mod Undo
pub mod Restore
pub mod Even
pub mod Sums
pub mod Net
use tezos_index.Common.{
  ℕ, suc, Bool, true, false, not, ◌&&◌, List, [], ◌∷◌, ◌++◌, Option, none, some, ◌==◌, ◌+◌, ◌*◌,
  ◌-◌, ◌^◌, if◌then◌else◌, ltb, leb,
}
use tezos_index.Common.Int64.{Int64, add64, sub64, mul64, lt64}
use tezos_index.Chain.OpType.{OpType}
use tezos_index.Chain.Params.{minus_one, is_cycle_start}
use tezos_index.Models.Flow.{Flow}
use tezos_index.Models.FlowType.{FlowCategory, FlowType}
use tezos_index.Models.Op.{Op}
use tezos_index.Models.Right.{Right}
use tezos_index.Models.Income.{Income, Column, add_all, grade}
use tezos_index.Models.Block.{Block}
use tezos_index.Models.Block.Reward.{block_reward}
use tezos_index.Models.Block.Totals.{ones_count}
use tezos_index.Puller.Index.Income.Changes.{
  Change, flow_change, is_stolen_reward, op_change, nonce_change, is_burned_nonce,
}
use tezos_index.Puller.Builder.{BuildError, Outcome, ok, err, panic, ◌>>=◌, deref}

-- The income table has one row for each cycle and account.
abbrev pub Table : Type 0
Table = Int64 → ℕ → Option Income

-- `incomeMap`: the rows that a run has loaded, all of one cycle, by their account.
abbrev pub Cache : Type 0
Cache = ℕ → Option Income

-- `loadIncome`
unfoldable pub load_income : Table → Int64 → ℕ → Option Income
load_income t cycle id = if lt64 cycle 0 && id == 0 then none else t cycle id

-- A Go map with one key set.
abbrev pub put : Cache → ℕ → Income → Cache
put m id r = λ j. if j == id then some r else m j

-- `v.Priority > 0`, and `!v.IsMissed`
abbrev pub is_behind : Right → Bool
is_behind r = lt64 0 r.priority

abbrev pub is_used : Right → Bool
is_used r = not r.is_missed

module _ (t : Table) (cycle mul : Int64) where
  -- `in, ok := incomeMap[id]; if !ok { in, err = loadIncome(…) … }`, and the assignments.
  unfoldable pub touch : ℕ → Change → Cache → Outcome Cache
  unfolding load_income
  touch id change m = elim (m id) [
    | some r ↦ ok (put m id (add_all mul change r))
    | none ↦ elim (load_income t cycle id) [
      | some r ↦ ok (put m id (add_all mul change r))
      | none ↦ err BuildError.no_income
    ]
  ]

  -- A loop over rights that skips some.
  unfoldable pub each_right : (Right → Bool) → Change → List Right → Cache → Outcome Cache
  unfolding touch
  each_right skip change [] m = ok m
  each_right skip change (r ∷ rs) m =
      (if skip r then ok m else touch r.account_id change m) >>= λ m'. each_right skip change rs m'

  -- One flow, and the loop.
  unfoldable pub book_flow : Block → Int64 → List Right → Flow → Cache → Outcome Cache
  unfolding touch each_right flow_change is_stolen_reward
  book_flow b reward baking f m =
      let stolen = lt64 0 b.priority in
      if not f.is_frozen
      then ok m
      else (touch f.account_id
            (flow_change f.operation f.category stolen f.is_burned f.amount_in f.amount_out) m
          >>= λ m'.
              if is_stolen_reward f.operation f.category stolen
              then each_right is_behind ((Column.missed_baking_income, reward) ∷ []) baking m'
              else ok m')

  unfoldable pub book_flows : Block → Int64 → List Right → List Flow → Cache → Outcome Cache
  unfolding book_flow
  book_flows b reward baking [] m = ok m
  book_flows b reward baking (f ∷ fs) m =
      book_flow b reward baking f m >>= λ m'. book_flows b reward baking fs m'

  -- The counters of the baker, and of those that lost the block to it.
  unfoldable pub book_baker : Block → List Right → Cache → Outcome Cache
  unfolding touch each_right
  book_baker b baking m =
      let stolen = lt64 0 b.priority in
      if ltb 0 b.baker_id
      then (touch b.baker_id
            ((Column.n_blocks_baked, 1) ∷ (if stolen then (Column.n_blocks_stolen, 1) ∷ [] else []))
            m
          >>= λ m'.
              if stolen
              then each_right is_behind ((Column.n_blocks_lost, 1) ∷ []) baking m'
              else ok m')
      else ok m

  unfoldable pub book_ops : List Op → Cache → Outcome Cache
  unfolding touch op_change
  book_ops [] m = ok m
  book_ops (o ∷ os) m =
      elim (op_change o.type o) [ none ↦ ok m | some change ↦ touch o.sender_id change m ] >>= λ m'.
      book_ops os m'

  -- Missed endorsements; the parent may be nil.
  unfoldable pub book_missed : Block → Option Block → List Right → Cache → Outcome Cache
  unfolding each_right
  book_missed b parent endorsing m =
      let reward : Int64 =
        if lt64 b.cycle b.params.no_reward_cycles then 0 else b.params.endorsement_reward in
      elim parent [
        | none ↦ ok m
        | some p ↦
            if p.slots_endorsed == 2 ^ 32 - 1
            then ok m
            else each_right is_used
                ((Column.missed_endorsing_income, reward) ∷ (Column.n_slots_missed, 1) ∷ [])
                endorsing m
      ]

  unfoldable pub book_nonces : Block → List Flow → Cache → Outcome Cache
  unfolding touch nonce_change is_burned_nonce
  book_nonces b [] m = ok m
  book_nonces b (f ∷ fs) m =
      (if is_burned_nonce f
        then touch f.account_id (nonce_change b f.category f.amount_out) m
        else ok m)
      >>= λ m'. book_nonces b fs m'

  -- The last loops: every loaded row gets its shares and is written back.
  unfoldable pub save : Cache → Table
  save m c id =
      if c == cycle then elim (m id) [ none ↦ t c id | some r ↦ some (grade r) ] else t c id

abbrev pub no_rows : Cache
no_rows id = none

-- What an update is called with beside the table: the block, its parent, and the rights that the
-- builder holds.
pub record Booking : Type 0 where
  pub block : Block
  pub parent : Option Block
  pub baking : List Right
  pub endorsing : List Right

-- `mul`
abbrev pub sign : Bool → Int64
sign is_rollback = if is_rollback then minus_one else 1

module _ (endorsed : Op → Option (List Int64)) (scaled : Int64 → Int64 → Int64 → Int64 → Int64)
    (k : Booking) (is_rollback : Bool) where
  -- `UpdateBlockIncome`
  unfoldable pub update_block_income : Table → Outcome Table
  unfolding block_reward book_flows book_baker book_ops book_missed save
  update_block_income t =
      let b = k.block in
      let mul = sign is_rollback in
      deref (block_reward endorsed scaled b b.params) >>= λ reward.
      book_flows t b.cycle mul b reward k.baking b.flows no_rows >>= λ m1.
      book_baker t b.cycle mul b k.baking m1 >>= λ m2. book_ops t b.cycle mul b.ops m2 >>= λ m3.
      book_missed t b.cycle mul b k.parent k.endorsing m3 >>= λ m4. ok (save t b.cycle mul m4)

  -- `UpdateNonceRevelations`
  unfoldable pub update_nonce_revelations : Table → Outcome Table
  unfolding book_nonces save
  update_nonce_revelations t =
      let b = k.block in
      let cycle = sub64 b.cycle 1 in
      if lt64 cycle 0
      then ok t
      else (book_nonces t cycle (sign is_rollback) b b.flows no_rows >>= λ m.
          ok (save t cycle (sign is_rollback) m))

-- `DeleteCycle`
unfoldable pub delete_cycle : Int64 → Table → Table
delete_cycle cycle t c id = if c == cycle then none else t c id

-- An error that is logged and dropped; the updates write nothing before they fail.
abbrev pub logged : Table → Outcome Table → Outcome Table
logged t (ok u) = ok u
logged t (err e) = ok t
logged t panic = panic

module _ (endorsed : Op → Option (List Int64)) (scaled : Int64 → Int64 → Int64 → Int64 → Int64)
    (k : Booking) where
  -- The two updates of `ConnectBlock`, which drops their errors.
  unfoldable pub connect_updates : Table → Outcome Table
  unfolding update_block_income update_nonce_revelations
  connect_updates t = logged t (update_block_income endorsed scaled k false t) >>= λ t1.
      logged t1 (update_nonce_revelations endorsed scaled k false t1)

  -- `DisconnectBlock`
  unfoldable pub disconnect_block : Table → Outcome Table
  unfolding update_block_income update_nonce_revelations delete_cycle is_cycle_start
  disconnect_block t = do
    t1 ← update_block_income endorsed scaled k true t
    t2 ← update_nonce_revelations endorsed scaled k true t1
    first ← deref (is_cycle_start k.block.params k.block.height)
    ok (if first then delete_cycle k.block.height t2 else t2)
