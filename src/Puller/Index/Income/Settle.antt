-- ===== src/Puller/Index/Income/Settle.antt =====
-- puller/index/incomeindex.go: what a run of turns does to the rows.
use mathlib.Core.Option
use mathlib.Core.List.{append-nil}
use tezos_index.Common.{
  ℕ, Bool, true, false, List, [], ◌∷◌, ◌++◌, Option, none, some, ◌==◌, ◌≡◌, refl, sym, ◌∙◌, ap,
  ◌||◌, arith, if◌then◌else◌, Bool-cases, Option-cases, inl, inr,
}
use tezos_index.Common.Int64.{Int64, mul64}
use tezos_index.Models.Income.{Income, add, add_all}
use tezos_index.Puller.Builder.{ok}
use tezos_index.Puller.Builder.Laws.{ok-injective, >>=-eq-ok}
use tezos_index.Puller.Index.Income.Changes.{Change}
use tezos_index.Puller.Index.Income.{Table, Cache, load_income, put, touch}
use tezos_index.Puller.Index.Income.Turns.{Turn, exec}

-- The assignments that the turns make to the row of an account, in their order.
unfoldable pub posted : ℕ → List Turn → Change
posted id [] = []
posted id ((j, change) ∷ ts) = if id == j then change ++ posted id ts else posted id ts

-- Some turn changes the row of the account.
unfoldable pub touches : ℕ → List Turn → Bool
touches id [] = false
touches id ((j, change) ∷ ts) = id == j || touches id ts

add_all-append :
    (mul : Int64) (vs ws : Change) (r : Income)
    → add_all mul (vs ++ ws) r ≡ add_all mul ws (add_all mul vs r)
unfolding add_all
add_all-append mul [] ws r = refl
add_all-append mul ((c, v) ∷ vs) ws r = add_all-append mul vs ws (add c (mul64 v mul) r)

pub posted-nil : (id : ℕ) (ts : List Turn) → touches id ts ≡ false → posted id ts ≡ []
unfolding posted touches
posted-nil id [] h = refl
posted-nil id ((j, change) ∷ ts) h = ground (arith, posted-nil id ts)

abbrev pub or_loaded : Option Income → Option Income → Option Income
or_loaded (some r) loaded = some r
or_loaded none loaded = loaded

pub eq_of_test : (a b : ℕ) → (a == b) ≡ true → a ≡ b
eq_of_test a b e = ground arith

module _ (t : Table) (cycle mul : Int64) where
  -- The row that a lookup finds.
  abbrev pub view : Cache → ℕ → Option Income
  view m id = or_loaded (m id) (load_income t cycle id)

  touch-eq-ok :
      (id : ℕ) (change : Change) (m m' : Cache)
      → touch t cycle mul id change m ≡ ok m'
      → (r : Income) × (view m id ≡ some r) × (put m id (add_all mul change r) ≡ m')
  unfolding touch
  touch-eq-ok id change m m' e = elim (Option-cases (m id)) [
    | inl out ↦ elim (Option-cases (load_income t cycle id)) [
      | inl missing ↦ absurd (ground (arith, e))
      | inr (r, found) ↦ (r, ground (arith, out, found), ok-injective (ground (arith, e)))
    ]
    | inr (r, held) ↦ (r, ground (arith, held), ok-injective (ground (arith, e)))
  ]

  -- A row that is found stays found, and only the touched one changes.
  view-put :
      (m : Cache) (id j : ℕ) (r : Income)
      → view (put m id r) j ≡ (if j == id then some r else view m j)
  view-put m id j r = elim (Bool-cases (j == id)) [ inl e ↦ rw e refl | inr e ↦ rw e refl ]

  -- What a run leaves in the map.
  abbrev pub ends : List Turn → Cache → ℕ → Option Income
  ends ts m j = if touches j ts then Option.map (add_all mul (posted j ts)) (view m j) else m j

  pub exec-ends :
      (ts : List Turn) (m m' : Cache) → exec t cycle mul ts m ≡ ok m' → (j : ℕ) → m' j ≡ ends ts m j
  unfolding exec touches posted
  exec-ends [] m m' e j = ap (λ (c : Cache). c j) (sym (ok-injective e))
  exec-ends ((id, change) ∷ ts) m m' e j =
      let step = >>=-eq-ok (touch t cycle mul id change m) (exec t cycle mul ts) m' e in
      let held = touch-eq-ok id change m step.0 step.1 in
      let later = exec-ends ts step.0 m' step.2 j in
      elim (Bool-cases (j == id)) [
        | inl e ↦
            let found : view m j ≡ some held.0 = ap (view m) (eq_of_test j id e) ∙ held.1 in
            let now : step.0 j ≡ some (add_all mul change held.0) =
              ap (λ (c : Cache). c j) (sym held.2) ∙ (rw e refl) in
            elim (Bool-cases (touches j ts)) [
              | inl more ↦
                  later
                  ∙ rw (more, now, e, found)
                      (ap some (sym (add_all-append mul change (posted j ts) held.0)))
              | inr done ↦
                  later
                  ∙ rw (done, now, e, found, posted-nil j ts done)
                      (ap (λ (vs : Change). some (add_all mul vs held.0)) (sym (append-nil change)))
            ]
        | inr e ↦
            let now : step.0 j ≡ m j = ap (λ (c : Cache). c j) (sym held.2) ∙ (rw e refl) in
            later ∙ rw (e, now) refl
      ]

  -- A row that some turn changes was found.
  pub exec-found :
      (ts : List Turn) (m m' : Cache)
      → exec t cycle mul ts m ≡ ok m'
      → (j : ℕ) → touches j ts ≡ true
      → (r : Income) × (view m j ≡ some r)
  unfolding exec touches
  exec-found [] m m' e j h = absurd (ground (arith, h))
  exec-found ((id, change) ∷ ts) m m' e j h =
      let step = >>=-eq-ok (touch t cycle mul id change m) (exec t cycle mul ts) m' e in
      let held = touch-eq-ok id change m step.0 step.1 in
      elim (Bool-cases (j == id)) [
        | inl here ↦ (held.0, ap (view m) (eq_of_test j id here) ∙ held.1)
        | inr other ↦
            let later = exec-found ts step.0 m' step.2 j (ground (arith, h, other)) in
            let now : step.0 j ≡ m j = ap (λ (c : Cache). c j) (sym held.2) ∙ (rw other refl) in
            (
              later.0,
              ap (λ (o : Option Income). or_loaded o (load_income t cycle j)) (sym now) ∙ later.1,
            )
      ]

  -- A run whose rows are all found ends.
  touch-ok :
      (id : ℕ) (change : Change) (m : Cache) (r : Income)
      → view m id ≡ some r
      → touch t cycle mul id change m ≡ ok (put m id (add_all mul change r))
  unfolding touch
  touch-ok id change m r e = elim (Option-cases (m id)) [
    | inl out ↦ ground (arith, e, out)
    | inr (s, held) ↦ ground (arith, e, held)
  ]

  pub exec_total :
      (ts : List Turn) (m : Cache)
      → ((j : ℕ) → touches j ts ≡ true → (r : Income) × (view m j ≡ some r))
      → (m' : Cache) × (exec t cycle mul ts m ≡ ok m')
  unfolding exec touches
  exec_total [] m h = (m, refl)
  exec_total ((id, change) ∷ ts) m h =
      let held = h id (ground arith) in
      let next = put m id (add_all mul change held.0) in
      let rest = exec_total ts next (λ j more. elim (Bool-cases (j == id)) [
        | inl here ↦ (add_all mul change held.0, rw here refl)
        | inr other ↦ let known = h j (ground (arith, more)) in (known.0, (rw other refl) ∙ known.1)
      ]) in
      (rest.0, rw (touch-ok id change m held.0 held.1) rest.1)
