-- ===== src/Models/Income/Undo.antt =====
-- puller/models/income.go: a sheet that a block changed and its roll-back changed back is the sheet.
use tezos_index.Common.{List, [], ◌∷◌, ◌≡◌, refl, sym, ◌∙◌, ap, arith, false, Bool-cases}
use tezos_index.Common.Int64.{Int64, add64, mul64, lt64, add64_assoc}
use tezos_index.Chain.Params.{minus_one}
use tezos_index.Models.Income.{Income, Column, get, add, add_all, performance, contribution, grade}
use tezos_index.Models.Income.Laws.{
  SameCounters, IsRanged, frame, get-add_all, add_all-IsRanged, frame-add_all, get-grade,
  frame-grade, total_undo, add64-zero,
}

-- The fields decide a sheet.
eq_of_fields :
    (r s : Income)
    → SameCounters r s
    → r.performance_pct ≡ s.performance_pct
    → r.contribution_pct ≡ s.contribution_pct
    → r ≡ s
unfolding get frame
eq_of_fields r s h p q = ground (
  arith,
  h.framed,
  h.counters Column.n_blocks_baked,
  h.counters Column.n_blocks_lost,
  h.counters Column.n_blocks_stolen,
  h.counters Column.n_slots_endorsed,
  h.counters Column.n_slots_missed,
  h.counters Column.n_seeds_revealed,
  h.counters Column.total_income,
  h.counters Column.total_bonds,
  h.counters Column.baking_income,
  h.counters Column.endorsing_income,
  h.counters Column.double_baking_income,
  h.counters Column.double_endorsing_income,
  h.counters Column.seed_income,
  h.counters Column.fees_income,
  h.counters Column.missed_baking_income,
  h.counters Column.missed_endorsing_income,
  h.counters Column.stolen_baking_income,
  h.counters Column.total_lost,
  h.counters Column.lost_accusation_fees,
  h.counters Column.lost_accusation_rewards,
  h.counters Column.lost_accusation_deposits,
  h.counters Column.lost_revelation_fees,
  h.counters Column.lost_revelation_rewards,
)

module _ (x r : Income) (h : SameCounters x r) where
  performance-same :
      (lt64 0 r.expected_income ≡ false → x.performance_pct ≡ r.performance_pct)
      → performance x ≡ performance r
  unfolding performance get frame
  performance-same k = ground (
    arith,
    h.framed,
    h.counters Column.total_income,
    h.counters Column.total_lost,
    Bool-cases (lt64 0 r.expected_income),
  )

  contribution-same :
      (lt64 0 (add64 r.n_baking_rights r.n_endorsing_rights) ≡ false
        → x.contribution_pct ≡ r.contribution_pct)
      → contribution x ≡ contribution r
  unfolding contribution get frame
  contribution-same k = ground (
    arith,
    h.framed,
    h.counters Column.n_blocks_baked,
    h.counters Column.n_slots_endorsed,
    Bool-cases (lt64 0 (add64 r.n_baking_rights r.n_endorsing_rights)),
  )

-- The shares stay where nothing is expected, and where there are no rights.
performance-kept :
    (y : Income) → lt64 0 y.expected_income ≡ false → performance y ≡ y.performance_pct
unfolding performance
performance-kept y e = rw e

contribution-kept :
    (y : Income)
    → lt64 0 (add64 y.n_baking_rights y.n_endorsing_rights) ≡ false
    → contribution y ≡ y.contribution_pct
unfolding contribution
contribution-kept y e = rw e

grade-shares :
    (r : Income)
    → ((grade r).performance_pct ≡ performance r) × ((grade r).contribution_pct ≡ contribution r)
unfolding grade
grade-shares r = (refl, refl)

framed-fields :
    (y r : Income)
    → frame y ≡ frame r
    → (y.expected_income ≡ r.expected_income)
      × (add64 y.n_baking_rights y.n_endorsing_rights
          ≡ add64 r.n_baking_rights r.n_endorsing_rights)
unfolding frame
framed-fields y r e = (ground (arith, e), ground (arith, e))

-- Assignments to counters leave the shares alone.
add-shares :
    (c : Column) (v : Int64) (r : Income)
    → ((add c v r).performance_pct ≡ r.performance_pct)
      × ((add c v r).contribution_pct ≡ r.contribution_pct)
unfolding add
add-shares Column.n_blocks_baked v r = (refl, refl)
add-shares c v r = (refl, refl)

add_all-shares :
    (mul : Int64) (vs : List (Column × Int64)) (r : Income)
    → ((add_all mul vs r).performance_pct ≡ r.performance_pct)
      × ((add_all mul vs r).contribution_pct ≡ r.contribution_pct)
unfolding add_all
add_all-shares mul [] r = (refl, refl)
add_all-shares mul ((c, v) ∷ vs) r =
    let a = add-shares c (mul64 v mul) r in
    let b = add_all-shares mul vs (add c (mul64 v mul) r) in (b.0 ∙ a.0, b.1 ∙ a.1)

-- The counters and the rest are back.
undone :
    (vs : List (Column × Int64)) (r : Income)
    → IsRanged r
    → SameCounters (add_all minus_one vs (grade (add_all 1 vs r))) r
undone vs r h =
    let y = add_all 1 vs r in
    record {
      counters = λ c.
          get-add_all minus_one c vs (grade y) (rw (get-grade c y) (add_all-IsRanged 1 vs r h c))
          ∙ rw (get-grade c y, get-add_all 1 c vs r (h c), add64_assoc, total_undo)
              (add64-zero (get c r) (h c));
      framed = frame-add_all minus_one vs (grade y) ∙ frame-grade y ∙ frame-add_all 1 vs r;
    }

-- A graded sheet is restored, its shares included.
pub grade-undo :
    (vs : List (Column × Int64)) (r : Income)
    → IsRanged r
    → grade r ≡ r
    → grade (add_all minus_one vs (grade (add_all 1 vs r))) ≡ r
grade-undo vs r h g =
    let y = add_all 1 vs r in
    let x = add_all minus_one vs (grade y) in
    let same = undone vs r h in
    let kept = add_all-shares minus_one vs (grade y) in
    let before = add_all-shares 1 vs r in
    let there = framed-fields y r (frame-add_all 1 vs r) in
    let p : performance x ≡ performance r =
      performance-same x r same λ e.
        kept.0 ∙ (grade-shares y).0 ∙ performance-kept y (ap (lt64 0) there.0 ∙ e) ∙ before.0 in
    let q : contribution x ≡ contribution r =
      contribution-same x r same λ e.
        kept.1 ∙ (grade-shares y).1 ∙ contribution-kept y (ap (lt64 0) there.1 ∙ e) ∙ before.1 in
    eq_of_fields (grade x) r
      (record {
        counters = λ c. get-grade c x ∙ same.counters c;
        framed = frame-grade x ∙ same.framed;
      })
      ((grade-shares x).0 ∙ p ∙ sym (grade-shares r).0 ∙ ap (λ (i : Income). i.performance_pct) g)
      ((grade-shares x).1 ∙ q ∙ sym (grade-shares r).1 ∙ ap (λ (i : Income). i.contribution_pct) g)

-- Grading again changes nothing.
pub grade-grade : (r : Income) → grade (grade r) ≡ grade r
unfolding grade performance contribution
grade-grade r = ground arith
