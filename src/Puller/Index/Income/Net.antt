-- ===== src/Puller/Index/Income/Net.antt =====
-- puller/index/incomeindex.go: what an update books, and what a failed one leaves behind.
use tezos_index.Common.{
  ℕ, Bool, true, false, List, Option, some, ◌==◌, ◌≡◌, ◌≢◌, ◌⊎◌, refl, sym, ◌∙◌, ap, arith,
  if◌then◌else◌, Bool-cases, inl, inr,
}
use tezos_index.Common.Int64.{Int64, IsInt64, add64}
use tezos_index.Chain.Params.{minus_one}
use tezos_index.Models.Op.{Op}
use tezos_index.Models.Income.{Income, Column, get, add_all, grade}
use tezos_index.Models.Income.Laws.{IsRanged, total, get-add_all, get-grade, add64-zero}
use tezos_index.Models.Block.Reward.{block_reward}
use tezos_index.Puller.Builder.{BuildError, Outcome, ok, err, panic, ◌>>=◌, deref}
use tezos_index.Puller.Builder.Laws.{ok-injective, >>=-eq-ok}
use tezos_index.Puller.Index.Income.{
  Table, Booking, sign, load_income, logged, update_block_income, update_nonce_revelations,
  connect_updates, disconnect_block,
}
use tezos_index.Puller.Index.Income.Turns.{block_turns}
use tezos_index.Puller.Index.Income.Settle.{posted, touches, posted-nil}
use tezos_index.Puller.Index.Income.Rows.{
  run, run-Booked, run-found, run_total, update_block_income-run,
}
use tezos_index.Puller.Index.Income.Restore.{before-ne, nonce_elsewhere}

loads_alike :
    (t u : Table) (cycle : Int64) (id : ℕ) (r : Income)
    → t cycle id ≡ u cycle id
    → load_income t cycle id ≡ some r
    → load_income u cycle id ≡ some r
unfolding load_income
loads_alike t u cycle id r e f = rw (← e) f

Outcome-cases :
    (o : Outcome Table)
    → ((u : Table) × (o ≡ ok u)) ⊎ ((x : BuildError) × (o ≡ err x)) ⊎ (o ≡ panic)
Outcome-cases (ok u) = inl (u, refl)
Outcome-cases (err x) = inr (inl (x, refl))
Outcome-cases panic = inr (inr refl)

module _ (endorsed : Op → Option (List Int64)) (scaled : Int64 → Int64 → Int64 → Int64 → Int64)
    (k : Booking) where
  paid_run :
      (is_rollback : Bool) (t t' : Table)
      → update_block_income endorsed scaled k is_rollback t ≡ ok t'
      → (reward : Int64) × (deref (block_reward endorsed scaled k.block k.block.params) ≡ ok reward)
        × (run t k.block.cycle (sign is_rollback) (block_turns k reward) ≡ ok t')
  paid_run is_rollback t t' e =
      >>=-eq-ok (deref (block_reward endorsed scaled k.block k.block.params))
        (λ x. run t k.block.cycle (sign is_rollback) (block_turns k x)) t'
        (sym (update_block_income-run endorsed scaled k is_rollback t) ∙ e)

  -- Where a block update succeeds, connected or rolled back, the block has a reward; every row of the
  -- table is still there; each counter of a row of the block's cycle has changed by the sum, modulo
  -- 2 ^ 64, of what the flows, the baker, the operations and the missed endorsements of the block
  -- book to that counter for its account, taken positively or negatively; and the counters of every
  -- other cycle are as they were. The counters are in range before.
  pub update_block_income-net :
      (is_rollback : Bool) (t t' : Table)
      → ((c : Int64) (id : ℕ) (r : Income) → t c id ≡ some r → IsRanged r)
      → update_block_income endorsed scaled k is_rollback t ≡ ok t'
      → (reward : Int64) × (deref (block_reward endorsed scaled k.block k.block.params) ≡ ok reward)
        × ((c : Int64) (id : ℕ) (r : Income)
            → t c id ≡ some r
            → (r' : Income) × (t' c id ≡ some r')
              × ((col : Column)
                  → get col r' ≡ (
                      if c == k.block.cycle
                      then add64
                          (get col r)
                          (total (sign is_rollback) col (posted id (block_turns k reward)))
                      else get col r)))
  unfolding total
  update_block_income-net is_rollback t t' ranged e =
      let mul = sign is_rollback in
      let cycle = k.block.cycle in
      let paid = paid_run is_rollback t t' e in
      let ts = block_turns k paid.0 in
      let booked = run-Booked t cycle mul ts t' paid.2 in
      (
        paid.0,
        paid.1,
        λ c id r found.
            let own = λ (col : Column). ranged c id r found col in
            elim (Bool-cases (c == cycle)) [
              | inr other ↦ (r, booked c id ∙ rw (other, found) refl, λ col. rw other refl)
              | inl same ↦ elim (Bool-cases (touches id ts)) [
                | inl more ↦ (
                  grade (add_all mul (posted id ts) r),
                  booked c id ∙ rw (same, more, found) refl,
                  λ col.
                      rw (same, get-grade col (add_all mul (posted id ts) r))
                        (get-add_all mul col (posted id ts) r (own col)),
                )
                | inr less ↦ (
                  r,
                  booked c id ∙ rw (same, less, found) refl,
                  λ col. rw (same, posted-nil id ts less) (sym (add64-zero (get col r) (own col))),
                )
              ]
            ],
      )

  -- The nonce revelations leave the rows of the block's cycle alone, also where they fail.
  logged_elsewhere :
      (t t2 : Table)
      → IsInt64 k.block.cycle
      → logged t (update_nonce_revelations endorsed scaled k false t) ≡ ok t2
      → (id : ℕ) → t2 k.block.cycle id ≡ t k.block.cycle id
  logged_elsewhere t t2 range e id =
      elim (Outcome-cases (update_nonce_revelations endorsed scaled k false t)) [
        | inl (u, done) ↦
            let same : u ≡ t2 = ok-injective (rw done at e) in
            ap (λ (x : Table). x k.block.cycle id) (sym same)
            ∙ nonce_elsewhere endorsed scaled k t u done k.block.cycle id
                (before-ne k.block.cycle range)
        | inr (inl (x, failed)) ↦
            ap (λ (y : Table). y k.block.cycle id) (sym (ok-injective (rw failed at e)))
        | inr (inr stopped) ↦ absurd (ground (arith, e, stopped))
      ]

  -- Where the block update of `ConnectBlock` fails, the error is dropped; `DisconnectBlock` of the
  -- same block on the table that is left then never succeeds.
  pub disconnect_block-dropped :
      (t t2 t' : Table) (x : BuildError)
      → IsInt64 k.block.cycle
      → update_block_income endorsed scaled k false t ≡ err x
      → connect_updates endorsed scaled k t ≡ ok t2
      → disconnect_block endorsed scaled k t2 ≢ ok t'
  unfolding connect_updates disconnect_block
  disconnect_block-dropped t t2 t' x range failed e d =
      let cycle = k.block.cycle in
      let rows = logged_elsewhere t t2 range (rw failed at e) in
      let back = >>=-eq-ok (update_block_income endorsed scaled k true t2) _ t' d in
      let paid = paid_run true t2 back.0 back.1 in
      let ts = block_turns k paid.0 in
      let again = run_total t cycle 1 ts λ id h.
        let found = run-found t2 cycle minus_one ts back.0 paid.2 id h in
        (found.0, loads_alike t2 t cycle id found.0 (rows id) found.1) in
      let succeeds : update_block_income endorsed scaled k false t ≡ ok again.0 =
        update_block_income-run endorsed scaled k false t
        ∙ ap (λ (o : Outcome Int64). o >>= λ r. run t cycle 1 (block_turns k r)) paid.1
        ∙ again.1 in
      absurd (ground (arith, succeeds, failed))
