-- ===== src/Models/Income/Laws.antt =====
-- puller/models/income.go: what the assignments do to each counter, and when two sheets are equal.
use tezos_index.Common.{
  ℕ, Bool, List, [], ◌∷◌, ◌≡◌, refl, sym, ◌∙◌, arith, ◌==◌, if◌then◌else◌, Bool-cases, inl, inr,
}
use tezos_index.Common.Int64.{Int64, IsInt64, add64, mul64, add64_assoc, add64-IsInt64}
use tezos_index.Chain.Params.{minus_one}
use tezos_index.Models.Income.{Income, Column, get, add, add_all, grade}

-- The place of a column.
unfoldable pub index : Column → ℕ
index Column.n_blocks_baked = 0
index Column.n_blocks_lost = 1
index Column.n_blocks_stolen = 2
index Column.n_slots_endorsed = 3
index Column.n_slots_missed = 4
index Column.n_seeds_revealed = 5
index Column.total_income = 6
index Column.total_bonds = 7
index Column.baking_income = 8
index Column.endorsing_income = 9
index Column.double_baking_income = 10
index Column.double_endorsing_income = 11
index Column.seed_income = 12
index Column.fees_income = 13
index Column.missed_baking_income = 14
index Column.missed_endorsing_income = 15
index Column.stolen_baking_income = 16
index Column.total_lost = 17
index Column.lost_accusation_fees = 18
index Column.lost_accusation_rewards = 19
index Column.lost_accusation_deposits = 20
index Column.lost_revelation_fees = 21
index Column.lost_revelation_rewards = 22

abbrev pub same : Column → Column → Bool
unfolding index
same c d = index c == index d

-- An assignment changes its own counter.
get-add :
    (c d : Column) (v : Int64) (r : Income)
    → get c (add d v r) ≡ (if same c d then add64 (get c r) v else get c r)
unfolding get add index
get-add Column.n_blocks_baked Column.n_blocks_baked v r = refl
get-add Column.n_blocks_lost Column.n_blocks_lost v r = refl
get-add Column.n_blocks_stolen Column.n_blocks_stolen v r = refl
get-add Column.n_slots_endorsed Column.n_slots_endorsed v r = refl
get-add Column.n_slots_missed Column.n_slots_missed v r = refl
get-add Column.n_seeds_revealed Column.n_seeds_revealed v r = refl
get-add Column.total_income Column.total_income v r = refl
get-add Column.total_bonds Column.total_bonds v r = refl
get-add Column.baking_income Column.baking_income v r = refl
get-add Column.endorsing_income Column.endorsing_income v r = refl
get-add Column.double_baking_income Column.double_baking_income v r = refl
get-add Column.double_endorsing_income Column.double_endorsing_income v r = refl
get-add Column.seed_income Column.seed_income v r = refl
get-add Column.fees_income Column.fees_income v r = refl
get-add Column.missed_baking_income Column.missed_baking_income v r = refl
get-add Column.missed_endorsing_income Column.missed_endorsing_income v r = refl
get-add Column.stolen_baking_income Column.stolen_baking_income v r = refl
get-add Column.total_lost Column.total_lost v r = refl
get-add Column.lost_accusation_fees Column.lost_accusation_fees v r = refl
get-add Column.lost_accusation_rewards Column.lost_accusation_rewards v r = refl
get-add Column.lost_accusation_deposits Column.lost_accusation_deposits v r = refl
get-add Column.lost_revelation_fees Column.lost_revelation_fees v r = refl
get-add Column.lost_revelation_rewards Column.lost_revelation_rewards v r = refl
get-add c d v r = refl

-- What a run of assignments adds to a counter.
unfoldable pub total : Int64 → Column → List (Column × Int64) → Int64
unfolding index
total mul c [] = 0
total mul c ((d, v) ∷ vs) =
    if same c d then add64 (mul64 v mul) (total mul c vs) else total mul c vs

-- Everything of a sheet but the counters and the two shares.
abbrev pub Frame : Type 0
Frame =
    ℕ × Int64 × ℕ × Int64 × Int64 × Int64 × Int64 × Int64 × Int64 × Int64 × Int64 × Int64 × Int64

unfoldable pub frame : Income → Frame
frame r = (
  r.row_id, r.cycle, r.account_id, r.rolls, r.balance, r.delegated, r.n_delegations,
  r.n_baking_rights, r.n_endorsing_rights, r.luck, r.luck_pct, r.expected_income, r.expected_bonds,
)

frame-add : (d : Column) (v : Int64) (r : Income) → frame (add d v r) ≡ frame r
unfolding frame add
frame-add Column.n_blocks_baked v r = refl
frame-add d v r = refl

-- Two sheets agree up to the shares.
pub record SameCounters (r s : Income) : Type 0 where
  pub counters : (c : Column) → get c r ≡ get c s
  pub framed : frame r ≡ frame s

-- Every counter is the pattern of an int64.
abbrev pub IsRanged : Income → Type 0
IsRanged r = (c : Column) → IsInt64 (get c r)

add-IsRanged :
    (c d : Column) (v : Int64) (r : Income) → IsInt64 (get c r) → IsInt64 (get c (add d v r))
add-IsRanged c d v r h = elim (Bool-cases (same c d)) [
  | inl e ↦ rw (get-add c d v r, e) (add64-IsInt64 (get c r) v)
  | inr e ↦ rw (get-add c d v r, e) h
]

-- Nothing is added.
pub add64-zero : (a : Int64) → IsInt64 a → add64 a 0 ≡ a
unfolding add64
add64-zero a h = omega arith

pub get-add_all :
    (mul : Int64) (c : Column) (vs : List (Column × Int64)) (r : Income)
    → IsInt64 (get c r)
    → get c (add_all mul vs r) ≡ add64 (get c r) (total mul c vs)
unfolding add_all total
get-add_all mul c [] r h = sym (add64-zero (get c r) h)
get-add_all mul c ((d, v) ∷ vs) r h =
    let w = mul64 v mul in
    let later = get-add_all mul c vs (add d w r) (add-IsRanged c d w r h) in
    elim (Bool-cases (same c d)) [
      | inl e ↦ rw (later, get-add c d w r, e) (add64_assoc (get c r) w (total mul c vs))
      | inr e ↦ rw (later, get-add c d w r, e)
    ]

pub add_all-IsRanged :
    (mul : Int64) (vs : List (Column × Int64)) (r : Income)
    → IsRanged r
    → IsRanged (add_all mul vs r)
add_all-IsRanged mul vs r h c =
    rw (get-add_all mul c vs r (h c)) (add64-IsInt64 (get c r) (total mul c vs))

pub frame-add_all :
    (mul : Int64) (vs : List (Column × Int64)) (r : Income) → frame (add_all mul vs r) ≡ frame r
unfolding add_all
frame-add_all mul [] r = refl
frame-add_all mul ((c, v) ∷ vs) r =
    frame-add_all mul vs (add c (mul64 v mul) r) ∙ frame-add c (mul64 v mul) r

-- The shares are no counters.
pub get-grade : (c : Column) (r : Income) → get c (grade r) ≡ get c r
unfolding get grade
get-grade Column.n_blocks_baked r = refl
get-grade c r = refl

pub frame-grade : (r : Income) → frame (grade r) ≡ frame r
unfolding frame grade
frame-grade r = refl

cancel :
    (v a b : Int64) → add64 a b ≡ 0 → add64 (add64 (mul64 v 1) a) (add64 (mul64 v minus_one) b) ≡ 0
unfolding add64 mul64
cancel v a b h = omega arith

-- What a rolled back block adds undoes what it added.
pub total_undo :
    (c : Column) (vs : List (Column × Int64)) → add64 (total 1 c vs) (total minus_one c vs) ≡ 0
unfolding total
total_undo c [] = unfold add64 in refl
total_undo c ((d, v) ∷ vs) = elim (Bool-cases (same c d)) [
  | inl e ↦ rw e (cancel v (total 1 c vs) (total minus_one c vs) (total_undo c vs))
  | inr e ↦ rw e (total_undo c vs)
]
