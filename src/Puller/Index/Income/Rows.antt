-- ===== src/Puller/Index/Income/Rows.antt =====
-- puller/index/incomeindex.go: what an update does to every row of the table.
use mathlib.Core.Option
use tezos_index.Common.{
  ℕ, Bool, true, false, ◌&&◌, List, Option, none, some, ◌==◌, ◌≡◌, ◌⊎◌, refl, ◌∙◌, ap, arith, subst,
  if◌then◌else◌, Bool-cases, inl, inr,
}
use tezos_index.Common.Int64.{Int64, lt64, sub64}
use tezos_index.Models.Op.{Op}
use tezos_index.Models.Income.{Income, add_all, grade}
use tezos_index.Models.Block.Reward.{block_reward}
use tezos_index.Puller.Builder.{Outcome, ok, ◌>>=◌, deref}
use tezos_index.Puller.Builder.Laws.{ok-injective, >>=-eq-ok}
use tezos_index.Puller.Index.Income.{
  Table, Cache, Booking, sign, load_income, no_rows, save, update_block_income,
  update_nonce_revelations, book_flows, book_baker, book_ops, book_missed,
}
use tezos_index.Puller.Index.Income.Turns.{
  Turn, exec, block_turns, nonce_turns, >>=-cong, bind_regroup,
}
use tezos_index.Puller.Index.Income.Exec.{block-exec, book_nonces-exec}
use tezos_index.Puller.Index.Income.Settle.{
  posted, touches, exec-ends, exec-found, exec_total, eq_of_test,
}

-- Every row of the cycle that some turn changes has the sum of its changes and its shares; every
-- other row is as it was.
abbrev pub Booked : Table → Int64 → Int64 → List Turn → Table → Type 0
Booked t cycle mul ts t' =
    (c : Int64) (id : ℕ)
    → t' c id ≡ (
        if c == cycle && touches id ts
        then Option.map (λ r. grade (add_all mul (posted id ts) r)) (t c id)
        else t c id)

-- The row that an update leaves.
pub row_of :
    (b : Bool) (o : Option Income) (f : Income → Income) (r : Income)
    → (if b then Option.map f o else o) ≡ some r
    → (s : Income) × (o ≡ some s) × ((r ≡ s) ⊎ (f s ≡ r))
row_of b none f r e = absurd (ground (arith, e, Bool-cases b))
row_of true (some s) f r e = (s, refl, inr (ground (arith, e)))
row_of false (some s) f r e = (s, refl, inl (ground (arith, e)))

pub load-eq-some :
    (t : Table) (cycle : Int64) (id : ℕ) (r : Income)
    → load_income t cycle id ≡ some r
    → t cycle id ≡ some r
unfolding load_income
load-eq-some t cycle id r e = ground (arith, e)

module _ (t : Table) (cycle mul : Int64) where
  saved : Option Income → Option Income → Option Income
  saved o p = elim o [ none ↦ p | some r ↦ some (grade r) ]

  save_at :
      (m : Cache) (c : Int64) (id : ℕ)
      → save t cycle mul m c id ≡ (if c == cycle then saved (m id) (t c id) else t c id)
  unfolding save saved
  save_at m c id = refl

  pub save-Booked :
      (ts : List Turn) (m : Cache)
      → exec t cycle mul ts no_rows ≡ ok m
      → Booked t cycle mul ts (save t cycle mul m)
  unfolding saved
  save-Booked ts m e c id = save_at m c id ∙ elim (Bool-cases (c == cycle)) [
    | inr other ↦ rw other refl
    | inl same ↦ elim (Bool-cases (touches id ts)) [
      | inl more ↦
          let found = exec-found t cycle mul ts no_rows m e id more in
          let row : t c id ≡ some found.0 =
            ap (λ (d : Int64). t d id) (eq_of_test c cycle same)
            ∙ load-eq-some t cycle id found.0 found.1 in
          rw (same, more, exec-ends t cycle mul ts no_rows m e id, more, row, found.1) refl
      | inr less ↦ rw (same, exec-ends t cycle mul ts no_rows m e id, less) refl
    ]
  ]

  -- A run of turns whose rows are then saved.
  abbrev pub run : List Turn → Outcome Table
  run ts = exec t cycle mul ts no_rows >>= λ m. ok (save t cycle mul m)

  pub run-Booked : (ts : List Turn) (t' : Table) → run ts ≡ ok t' → Booked t cycle mul ts t'
  run-Booked ts t' e =
      let ran = >>=-eq-ok (exec t cycle mul ts no_rows) (λ m. ok (save t cycle mul m)) t' e in
      subst (Booked t cycle mul ts) (ok-injective ran.2) (save-Booked ts ran.0 ran.1)

  -- Its rows were in the table.
  pub run-found :
      (ts : List Turn) (t' : Table)
      → run ts ≡ ok t'
      → (id : ℕ) → touches id ts ≡ true
      → (r : Income) × (load_income t cycle id ≡ some r)
  run-found ts t' e id h =
      let ran = >>=-eq-ok (exec t cycle mul ts no_rows) (λ m. ok (save t cycle mul m)) t' e in
      exec-found t cycle mul ts no_rows ran.0 ran.1 id h

  pub run_total :
      (ts : List Turn)
      → ((id : ℕ) → touches id ts ≡ true → (r : Income) × (load_income t cycle id ≡ some r))
      → (t' : Table) × (run ts ≡ ok t')
  run_total ts h =
      let ran = exec_total t cycle mul ts no_rows h in
      (save t cycle mul ran.0, ap (λ (o : Outcome Cache). o >>= λ m. ok (save t cycle mul m)) ran.1)

module _ (endorsed : Op → Option (List Int64)) (scaled : Int64 → Int64 → Int64 → Int64 → Int64)
    (k : Booking) (is_rollback : Bool) (t : Table) where
  -- `UpdateBlockIncome` is the run of the turns of the block.
  pub update_block_income-run : update_block_income endorsed scaled k is_rollback t ≡ (
      deref (block_reward endorsed scaled k.block k.block.params) >>= λ reward.
      run t k.block.cycle (sign is_rollback) (block_turns k reward))
  unfolding update_block_income
  update_block_income-run =
      let b = k.block in
      let mul = sign is_rollback in
      let missed = book_missed t b.cycle mul b k.parent k.endorsing in
      let ops = book_ops t b.cycle mul b.ops in
      let baker = book_baker t b.cycle mul b k.baking in
      >>=-cong (deref (block_reward endorsed scaled b b.params)) _ _ λ reward.
        bind_regroup (book_flows t b.cycle mul b reward k.baking b.flows no_rows) baker ops missed
          (λ m. ok (save t b.cycle mul m))
        ∙ ap (λ (o : Outcome Cache). o >>= λ m. ok (save t b.cycle mul m))
            (block-exec t b.cycle mul k reward no_rows)

  pub update_nonce_revelations-run : update_nonce_revelations endorsed scaled k is_rollback t ≡ (
      if lt64 (sub64 k.block.cycle 1) 0
      then ok t
      else run t (sub64 k.block.cycle 1) (sign is_rollback) (nonce_turns k.block k.block.flows))
  unfolding update_nonce_revelations
  update_nonce_revelations-run =
      ap (λ (o : Outcome Table). if lt64 (sub64 k.block.cycle 1) 0 then ok t else o)
        (ap
          (λ (o : Outcome Cache).
            o >>= λ m. ok (save t (sub64 k.block.cycle 1) (sign is_rollback) m))
          (book_nonces-exec t (sub64 k.block.cycle 1) (sign is_rollback) k.block k.block.flows
            no_rows))
