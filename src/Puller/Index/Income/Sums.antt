-- ===== src/Puller/Index/Income/Sums.antt =====
-- puller/index/incomeindex.go: the total income of a baker is the sum of its parts.
use tezos_index.Common.{ℕ, Bool, ◌&&◌, List, Option, some, ◌==◌, ◌≡◌, sym, ◌∙◌, subst, inl, inr}
use tezos_index.Common.Int64.{Int64, add64}
use tezos_index.Models.Op.{Op}
use tezos_index.Models.Block.Reward.{block_reward}
use tezos_index.Models.Income.{Income, Column, get, add_all, grade}
use tezos_index.Models.Income.Laws.{total, same, get-add_all, get-grade, IsRanged, add_all-IsRanged}
use tezos_index.Puller.Builder.{ok, deref}
use tezos_index.Puller.Builder.Laws.{>>=-eq-ok}
use tezos_index.Puller.Index.Income.Changes.{Change}
use tezos_index.Puller.Index.Income.{Table, Booking, sign, update_block_income}
use tezos_index.Puller.Index.Income.Turns.{block_turns}
use tezos_index.Puller.Index.Income.Even.{Even, regroup, posted-Even, block_turns-AllEven}
use tezos_index.Puller.Index.Income.Settle.{posted, touches}
use tezos_index.Puller.Index.Income.Rows.{run, row_of, run-Booked, update_block_income-run}

-- `TotalIncome` is `BakingIncome` plus `EndorsingIncome` plus `SeedIncome`.
abbrev pub IsSum : Income → Type 0
IsSum r =
    get Column.total_income r
    ≡ add64 (get Column.baking_income r)
        (add64 (get Column.endorsing_income r) (get Column.seed_income r))

module _ (mul : Int64) where
  -- A row that holds the sum keeps it.
  add_all-IsSum :
      (vs : Change) (r : Income)
      → Even mul vs
      → IsRanged r
      → IsSum r
      → IsSum (grade (add_all mul vs r))
  add_all-IsSum vs r even range h =
      let after : (c : Column)
          → get c (grade (add_all mul vs r)) ≡ add64 (get c r) (total mul c vs) =
        λ c. get-grade c (add_all mul vs r) ∙ get-add_all mul c vs r (range c) in
      rw
        (
          after Column.total_income,
          after Column.baking_income,
          after Column.endorsing_income,
          after Column.seed_income,
          h,
          even,
        )
        (regroup _ _ _ _ _ _)

-- Before and after an update of a block, connected or rolled back, the total income of a baker is
-- the sum of its baking, endorsing and seed income, in every row of the table, if the counters of
-- the rows were in range and the sums held before; the update keeps them in range too.
pub update_block_income-IsSum :
    (endorsed : Op → Option (List Int64)) (scaled : Int64 → Int64 → Int64 → Int64 → Int64)
    (k : Booking) (is_rollback : Bool) (t t' : Table)
    → ((c : Int64) (id : ℕ) (r : Income) → t c id ≡ some r → IsRanged r × IsSum r)
    → update_block_income endorsed scaled k is_rollback t ≡ ok t'
    → (c : Int64) (id : ℕ) (r : Income) → t' c id ≡ some r
    → IsRanged r × IsSum r
update_block_income-IsSum endorsed scaled k is_rollback t t' h e c id r found =
    let mul = sign is_rollback in
    let reward = deref (block_reward endorsed scaled k.block k.block.params) in
    let paid =
      >>=-eq-ok reward (λ x. run t k.block.cycle mul (block_turns k x)) t'
        (sym (update_block_income-run endorsed scaled k is_rollback t) ∙ e) in
    let ts = block_turns k paid.0 in
    let f : Income → Income = λ s. grade (add_all mul (posted id ts) s) in
    let booked = run-Booked t k.block.cycle mul ts t' paid.2 in
    let row =
      row_of (c == k.block.cycle && touches id ts) (t c id) f r (sym (booked c id) ∙ found) in
    let old = h c id row.0 row.1 in
    elim row.2 [
      | inl same ↦ subst (λ (x : Income). IsRanged x × IsSum x) (sym same) old
      | inr new ↦
          subst (λ (x : Income). IsRanged x × IsSum x) new
            (
              λ col.
                  rw (get-grade col (add_all mul (posted id ts) row.0))
                    (add_all-IsRanged mul (posted id ts) row.0 old.0 col),
              add_all-IsSum mul (posted id ts) row.0
                  (posted-Even mul id ts (block_turns-AllEven mul k paid.0)) old.0 old.1,
            )
    ]
