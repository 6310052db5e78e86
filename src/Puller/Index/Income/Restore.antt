-- ===== src/Puller/Index/Income/Restore.antt =====
-- puller/index/incomeindex.go: `DisconnectBlock` after `ConnectBlock`.
use tezos_index.Common.{
  ℕ, true, false, ◌&&◌, List, Option, some, ◌==◌, ◌≡◌, refl, sym, ◌∙◌, ap, arith, subst,
  if◌then◌else◌, Bool-cases, inl, inr,
}
use tezos_index.Common.Int64.{Int64, IsInt64, lt64, sub64}
use tezos_index.Chain.Params.{minus_one, is_cycle_start}
use tezos_index.Models.Op.{Op}
use tezos_index.Models.Income.{Income, add_all, grade}
use tezos_index.Models.Income.Laws.{IsRanged, add_all-IsRanged, get-grade}
use tezos_index.Models.Income.Undo.{grade-grade}
use tezos_index.Models.Block.Reward.{block_reward}
use tezos_index.Puller.Builder.{Outcome, ok, ◌>>=◌, deref}
use tezos_index.Puller.Builder.Laws.{ok-injective, >>=-eq-ok}
use tezos_index.Puller.Index.Income.{
  Table, Booking, update_block_income, update_nonce_revelations, disconnect_block, connect_updates,
}
use tezos_index.Puller.Index.Income.Turns.{Turn, block_turns, nonce_turns}
use tezos_index.Puller.Index.Income.Settle.{posted, touches, eq_of_test}
use tezos_index.Puller.Index.Income.Rows.{
  Booked, row_of, run, run-Booked, update_block_income-run, update_nonce_revelations-run,
}
use tezos_index.Puller.Index.Income.Undo.{IsKept, run-undo}

Booked-IsKept :
    (t : Table) (cycle mul : Int64) (ts : List Turn) (t' : Table)
    → IsKept t
    → Booked t cycle mul ts t'
    → IsKept t'
Booked-IsKept t cycle mul ts t' kept booked c id r e =
    let f : Income → Income = λ s. grade (add_all mul (posted id ts) s) in
    let found = row_of (c == cycle && touches id ts) (t c id) f r (sym (booked c id) ∙ e) in
    let old = kept c id found.0 found.1 in
    elim found.2 [
      | inl same ↦ subst (λ (x : Income). IsRanged x × (grade x ≡ x)) (sym same) old
      | inr new ↦
          subst (λ (x : Income). IsRanged x × (grade x ≡ x)) new
            (
              λ col.
                  rw (get-grade col (add_all mul (posted id ts) found.0))
                    (add_all-IsRanged mul (posted id ts) found.0 old.0 col),
              grade-grade (add_all mul (posted id ts) found.0),
            )
    ]

test_comm : (a b : ℕ) → (a == b) ≡ (b == a)
test_comm a b = ground arith

pub before-ne : (c : Int64) → IsInt64 c → (c == sub64 c 1) ≡ false
unfolding sub64
before-ne c h = ground arith

module _ (endorsed : Op → Option (List Int64)) (scaled : Int64 → Int64 → Int64 → Int64 → Int64)
    (k : Booking) (t t1 t2 : Table) (kept : IsKept t) where
  abbrev cycle : Int64
  cycle = k.block.cycle

  -- The block update, undone on any table that has its rows of the cycle.
  block_undo :
      update_block_income endorsed scaled k false t ≡ ok t1
      → ((id : ℕ) → t2 cycle id ≡ t1 cycle id)
      → IsKept t1
        × ((c : Int64) (id : ℕ) → (c == cycle) ≡ false → t1 c id ≡ t c id)
        × (t3 : Table) × (update_block_income endorsed scaled k true t2 ≡ ok t3)
        × ((c : Int64) (id : ℕ) → t3 c id ≡ (if c == cycle then t c id else t2 c id))
  block_undo e there =
      let reward = deref (block_reward endorsed scaled k.block k.block.params) in
      let paid =
        >>=-eq-ok reward (λ x. run t cycle 1 (block_turns k x)) t1
          (sym (update_block_income-run endorsed scaled k false t) ∙ e) in
      let ts = block_turns k paid.0 in
      let booked = run-Booked t cycle 1 ts t1 paid.2 in
      let back = run-undo t t1 t2 cycle ts kept paid.2 there in
      (
        Booked-IsKept t cycle 1 ts t1 kept booked,
        λ c id other. booked c id ∙ rw other refl,
        back.0,
        update_block_income-run endorsed scaled k true t2
            ∙ ap (λ (o : Outcome Int64). o >>= λ x. run t2 cycle minus_one (block_turns k x)) paid.1
            ∙ back.1,
        back.2,
      )

module _ (endorsed : Op → Option (List Int64)) (scaled : Int64 → Int64 → Int64 → Int64 → Int64)
    (k : Booking) (t1 t2 : Table) where
  pub nonce_elsewhere :
      update_nonce_revelations endorsed scaled k false t1 ≡ ok t2
      → (c : Int64) (id : ℕ) → (c == sub64 k.block.cycle 1) ≡ false
      → t2 c id ≡ t1 c id
  nonce_elsewhere e c id other =
      let ran = sym (update_nonce_revelations-run endorsed scaled k false t1) ∙ e in
      elim (Bool-cases (lt64 (sub64 k.block.cycle 1) 0)) [
        | inl early ↦ ap (λ (u : Table). u c id) (sym (ok-injective (rw early at ran)))
        | inr later ↦
            run-Booked t1 (sub64 k.block.cycle 1) 1 (nonce_turns k.block k.block.flows) t2
              (rw later at ran) c id
            ∙ rw other refl
      ]

module _ (endorsed : Op → Option (List Int64)) (scaled : Int64 → Int64 → Int64 → Int64 → Int64)
    (k : Booking) (t1 t2 t3 : Table) (kept : IsKept t1) where
  abbrev before : Int64
  before = sub64 k.block.cycle 1

  -- The nonce revelations, undone on any table that has their rows of the cycle before.
  nonce_undo :
      update_nonce_revelations endorsed scaled k false t1 ≡ ok t2
      → ((id : ℕ) → t3 before id ≡ t2 before id)
      → (t4 : Table) × (update_nonce_revelations endorsed scaled k true t3 ≡ ok t4)
        × ((c : Int64) (id : ℕ) → t4 c id ≡ (if c == before then t1 c id else t3 c id))
  nonce_undo e there =
      let ran = sym (update_nonce_revelations-run endorsed scaled k false t1) ∙ e in
      let ts = nonce_turns k.block k.block.flows in
      elim (Bool-cases (lt64 before 0)) [
        | inl early ↦
            let same : t1 ≡ t2 = ok-injective (rw early at ran) in
            (
              t3,
              update_nonce_revelations-run endorsed scaled k true t3 ∙ rw early refl,
              λ c id. elim (Bool-cases (c == before)) [
                | inl here ↦ rw here (
                    ap (λ (d : Int64). t3 d id) (eq_of_test c before here)
                    ∙ there id
                    ∙ ap (λ (u : Table). u before id) (sym same)
                    ∙ ap (λ (d : Int64). t1 d id) (sym (eq_of_test c before here)))
                | inr other ↦ rw other refl
              ],
            )
        | inr later ↦
            let back = run-undo t1 t2 t3 before ts kept (rw later at ran) there in
            (
              back.0,
              update_nonce_revelations-run endorsed scaled k true t3 ∙ rw later back.1,
              back.2,
            )
      ]

module _ (endorsed : Op → Option (List Int64)) (scaled : Int64 → Int64 → Int64 → Int64 → Int64)
    (k : Booking) (t : Table) where
  -- Where both updates of `ConnectBlock` succeed, `DisconnectBlock` of the same block on the table
  -- that they leave succeeds and gives every row of the table back as it was, its shares included,
  -- if the counters of every row are in range, its shares belong to its counters, and the block
  -- starts no cycle.
  pub disconnect_block-connect_updates :
      (t1 t2 : Table)
      → IsKept t
      → IsInt64 k.block.cycle
      → is_cycle_start k.block.params k.block.height ≡ some false
      → update_block_income endorsed scaled k false t ≡ ok t1
      → update_nonce_revelations endorsed scaled k false t1 ≡ ok t2
      → (connect_updates endorsed scaled k t ≡ ok t2)
        × (t' : Table) × (disconnect_block endorsed scaled k t2 ≡ ok t')
        × ((c : Int64) (id : ℕ) → t' c id ≡ t c id)
  unfolding connect_updates disconnect_block
  disconnect_block-connect_updates t1 t2 kept range inside e f =
      let cycle = k.block.cycle in
      let apart = before-ne cycle range in
      let kept_rows : (id : ℕ) → t2 cycle id ≡ t1 cycle id =
        λ id. nonce_elsewhere endorsed scaled k t1 t2 f cycle id apart in
      let b = block_undo endorsed scaled k t t1 t2 kept e kept_rows in
      let there : (id : ℕ) → b.2 (sub64 cycle 1) id ≡ t2 (sub64 cycle 1) id =
        λ id. b.4 (sub64 cycle 1) id ∙ rw (test_comm (sub64 cycle 1) cycle, apart) refl in
      let n = nonce_undo endorsed scaled k t1 t2 b.2 b.0 f there in
      (
        rw (e, f) refl,
        n.0,
        rw (b.3, n.1, inside) refl,
        λ c id. n.2 c id ∙ elim (Bool-cases (c == sub64 cycle 1)) [
          | inl early ↦ rw early (
              b.1 c id (
                ap (λ (d : ℕ). d == cycle) (eq_of_test c (sub64 cycle 1) early)
                ∙ test_comm (sub64 cycle 1) cycle
                ∙ apart))
          | inr other ↦ rw other (
              b.4 c id ∙ elim (Bool-cases (c == cycle)) [
                | inl same ↦ rw same refl
                | inr none_of ↦
                    rw none_of
                      (nonce_elsewhere endorsed scaled k t1 t2 f c id other ∙ b.1 c id none_of)
              ])
        ],
      )
