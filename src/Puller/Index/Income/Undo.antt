-- ===== src/Puller/Index/Income/Undo.antt =====
-- puller/index/incomeindex.go: rolling a block back restores the income table.
use tezos_index.Common.{
  ℕ, true, List, some, ◌==◌, ◌≡◌, refl, sym, ◌∙◌, ap, arith, if◌then◌else◌, Bool-cases, inl, inr,
}
use tezos_index.Common.Int64.{Int64}
use tezos_index.Chain.Params.{minus_one}
use tezos_index.Models.Income.{Income, add_all, grade}
use tezos_index.Models.Income.Laws.{IsRanged}
use tezos_index.Models.Income.Undo.{grade-undo}
use tezos_index.Puller.Builder.{ok}
use tezos_index.Puller.Index.Income.{Table, load_income}
use tezos_index.Puller.Index.Income.Turns.{Turn}
use tezos_index.Puller.Index.Income.Settle.{posted, touches, eq_of_test}
use tezos_index.Puller.Index.Income.Rows.{run, run-Booked, run-found, run_total, load-eq-some}

-- Each row holds int64 counters and the shares that belong to them.
abbrev pub IsKept : Table → Type 0
IsKept t = (c : Int64) (id : ℕ) (r : Income) → t c id ≡ some r → IsRanged r × (grade r ≡ r)

eq_self : (a : ℕ) → (a == a) ≡ true
eq_self a = ground arith

load_known :
    (t u : Table) (cycle : Int64) (id : ℕ) (r s : Income)
    → load_income t cycle id ≡ some r
    → u cycle id ≡ some s
    → load_income u cycle id ≡ some s
unfolding load_income
load_known t u cycle id r s e f = ground (arith, e, f)

module _ (t t1 u : Table) (cycle : Int64) (ts : List Turn) (kept : IsKept t)
    (ran : run t cycle 1 ts ≡ ok t1) (there : (id : ℕ) → u cycle id ≡ t1 cycle id) where
  touched_row :
      (id : ℕ) (r : Income)
      → touches id ts ≡ true
      → t cycle id ≡ some r
      → u cycle id ≡ some (grade (add_all 1 (posted id ts) r))
  touched_row id r h e =
      there id ∙ run-Booked t cycle 1 ts t1 ran cycle id ∙ rw (eq_self cycle, h, e) refl

  undo_total : (u' : Table) × (run u cycle minus_one ts ≡ ok u')
  undo_total = run_total u cycle minus_one ts λ id h.
      let found = run-found t cycle 1 ts t1 ran id h in
      let row = load-eq-some t cycle id found.0 found.1 in
      (
        grade (add_all 1 (posted id ts) found.0),
        load_known t u cycle id found.0 _ found.1 (touched_row id found.0 h row),
      )

  undo-at : (u' : Table) → run u cycle minus_one ts ≡ ok u' → (id : ℕ) → u' cycle id ≡ t cycle id
  undo-at u' e id =
      run-Booked u cycle minus_one ts u' e cycle id ∙ elim (Bool-cases (touches id ts)) [
        | inl h ↦
            let found = run-found t cycle 1 ts t1 ran id h in
            let row = load-eq-some t cycle id found.0 found.1 in
            let good = kept cycle id found.0 row in
            rw (eq_self cycle, h, touched_row id found.0 h row, row)
              (ap some (grade-undo (posted id ts) found.0 good.0 good.1))
        | inr h ↦
            rw (eq_self cycle, h)
              (there id ∙ run-Booked t cycle 1 ts t1 ran cycle id ∙ rw (eq_self cycle, h) refl)
      ]

  -- A run that is rolled back gives the cycle its rows back, and leaves the other cycles alone.
  pub run-undo :
      (u' : Table) × (run u cycle minus_one ts ≡ ok u')
      × ((c : Int64) (id : ℕ) → u' c id ≡ (if c == cycle then t c id else u c id))
  run-undo =
      let done = undo_total in
      (
        done.0,
        done.1,
        λ c id. elim (Bool-cases (c == cycle)) [
          | inl e ↦ rw e (
              ap (λ (d : Int64). done.0 d id) (eq_of_test c cycle e)
              ∙ undo-at done.0 done.1 id
              ∙ ap (λ (d : Int64). t d id) (sym (eq_of_test c cycle e)))
          | inr e ↦ rw e (run-Booked u cycle minus_one ts done.0 done.1 c id ∙ rw e refl)
        ],
      )
