-- ===== src/Puller/Index/Gov/Winner.antt =====
-- puller/index/govindex.go: the proposal that wins a proposal period.
use tezos_index.Common.{
  ℕ, true, false, ◌+◌, ◌≤◌, ◌<◌, ◌≡◌, ◌⊎◌, inl, inr, refl, sym, subst, List, [], ◌∷◌, ◌==◌, arith,
  if◌then◌else◌, ltb, Bool-cases,
}
use tezos_index.Common.Int64.{Int64, IsNonneg, lt64-exact}
use tezos_index.Models.Gov.{Proposal}
use tezos_index.Puller.Index.Gov.Elections.{Tally, tally, select_winner, no_winner}

-- How many proposals have that many rolls.
unfoldable pub tops : Int64 → List Proposal → ℕ
tops n [] = 0
tops n (p ∷ ps) = (if p.rolls == n then 1 else 0) + tops n ps

-- Rolls are not negative, and none has more than so many.
abbrev pub AllNonneg : List Proposal → Type 0
AllNonneg [] = Unit {0}
AllNonneg (p ∷ ps) = IsNonneg p.rolls × AllNonneg ps

abbrev pub AllUpTo : Int64 → List Proposal → Type 0
AllUpTo n [] = Unit {0}
AllUpTo n (p ∷ ps) = (p.rolls ≤ n) × AllUpTo n ps

-- A proposal of the list has this id and these rolls.
abbrev pub Holder : ℕ → Int64 → List Proposal → Type 0
Holder id n [] = ⊥
Holder id n (p ∷ ps) = ((p.row_id ≡ id) × (p.rolls ≡ n)) ⊎ Holder id n ps

-- What the loop makes of the proposals after a tally.
data Tallied (t f : Tally) (ps : List Proposal) : Type 0 where
  kept :
      f.count ≡ t.count
      → tops f.count ps ≡ 0
      → f.winner ≡ t.winner
      → f.is_draw ≡ t.is_draw
      → Tallied t f ps
  tied : f.count ≡ t.count → 0 < tops f.count ps → f.is_draw ≡ true → Tallied t f ps
  beaten :
      t.count < f.count
      → tops f.count ps ≡ 1
      → Holder f.winner f.count ps
      → f.is_draw ≡ false
      → Tallied t f ps
  shared : t.count < f.count → 1 < tops f.count ps → f.is_draw ≡ true → Tallied t f ps

-- One proposal, by the native order.
tally_cases :
    (t : Tally) (v : Proposal)
    → IsNonneg t.count
    → IsNonneg v.rolls
    → ((v.rolls < t.count) × (tally t v ≡ t))
      ⊎ ((t.count < v.rolls)
          × (tally t v ≡ record { winner = v.row_id; count = v.rolls; is_draw = false }))
      ⊎ ((v.rolls ≡ t.count) × (tally t v ≡ record t { is_draw = true }))
unfolding tally
tally_cases t v h k = elim (Bool-cases (ltb v.rolls t.count)) [
  | inl less ↦ inl (ground arith, rw (lt64-exact v.rolls t.count k h, less) refl)
  | inr not_less ↦ elim (Bool-cases (ltb t.count v.rolls)) [
    | inl more ↦ inr (
        inl (
          ground arith,
          rw (lt64-exact v.rolls t.count k h, not_less, lt64-exact t.count v.rolls h k, more) refl,
        ))
    | inr not_more ↦ inr (
        inr (
          ground arith,
          rw (lt64-exact v.rolls t.count k h, not_less, lt64-exact t.count v.rolls h k, not_more)
              refl,
        ))
  ]
]

abbrev Result : Tally → Tally → List Proposal → Type 0
Result t f ps = Tallied t f ps × AllUpTo f.count ps × (t.count ≤ f.count)

-- One more proposal in front.
below_front :
    (t f : Tally) (v : Proposal) (ps : List Proposal)
    → v.rolls < t.count
    → Result t f ps
    → Result t f (v ∷ ps)
unfolding tops
below_front t f v ps h (kept a b c d, up, le) = (kept a (ground arith) c d, (omega arith, up), le)
below_front t f v ps h (tied a b d, up, le) = (tied a (ground arith) d, (omega arith, up), le)
below_front t f v ps h (beaten a b c d, up, le) =
    (beaten a (ground arith) (inr c) d, (omega arith, up), le)
below_front t f v ps h (shared a b d, up, le) = (shared a (ground arith) d, (omega arith, up), le)

above_front :
    (t f : Tally) (v : Proposal) (ps : List Proposal)
    → t.count < v.rolls
    → Result (record { winner = v.row_id; count = v.rolls; is_draw = false }) f ps
    → Result t f (v ∷ ps)
unfolding tops
above_front t f v ps h (kept a b c d, up, le) = (
  beaten (omega arith) (ground arith) (inl (ground arith, ground arith)) d,
  (omega arith, up),
  omega arith,
)
above_front t f v ps h (tied a b d, up, le) =
    (shared (omega arith) (ground arith) d, (omega arith, up), omega arith)
above_front t f v ps h (beaten a b c d, up, le) =
    (beaten (omega arith) (ground arith) (inr c) d, (omega arith, up), omega arith)
above_front t f v ps h (shared a b d, up, le) =
    (shared (omega arith) (ground arith) d, (omega arith, up), omega arith)

equal_front :
    (t f : Tally) (v : Proposal) (ps : List Proposal)
    → v.rolls ≡ t.count
    → Result (record t { is_draw = true }) f ps
    → Result t f (v ∷ ps)
unfolding tops
equal_front t f v ps h (kept a b c d, up, le) =
    (tied a (ground arith) d, (omega arith, up), omega arith)
equal_front t f v ps h (tied a b d, up, le) =
    (tied a (ground arith) d, (omega arith, up), omega arith)
equal_front t f v ps h (beaten a b c d, up, le) =
    (beaten a (ground arith) (inr c) d, (omega arith, up), omega arith)
equal_front t f v ps h (shared a b d, up, le) =
    (shared a (ground arith) d, (omega arith, up), omega arith)

outcome :
    (ps : List Proposal) (t : Tally)
    → IsNonneg t.count
    → AllNonneg ps
    → Result t (select_winner t ps) ps
unfolding select_winner tops
outcome [] t h k = (kept refl refl refl refl, tt, omega arith)
outcome (v ∷ ps) t h k = elim (tally_cases t v h k.0) [
  | inl (less, e) ↦ after e (below_front t (select_winner t ps) v ps less (outcome ps t h k.1))
  | inr (inl (more, e)) ↦
      let next : Tally = record { winner = v.row_id; count = v.rolls; is_draw = false } in
      after e (above_front t (select_winner next ps) v ps more (outcome ps next k.0 k.1))
  | inr (inr (same, e)) ↦
      let next : Tally = record t { is_draw = true } in
      after e (equal_front t (select_winner next ps) v ps same (outcome ps next h k.1))
]
  where
    after :
        {next : Tally}
        → tally t v ≡ next
        → Result t (select_winner next ps) (v ∷ ps)
        → Result t (select_winner (tally t v) ps) (v ∷ ps)
    after e r = subst (λ (n : Tally). Result t (select_winner n ps) (v ∷ ps)) (sym e) r

undrawn :
    (ps : List Proposal) (f : Tally)
    → Result no_winner f ps
    → f.is_draw ≡ false
    → ((ps ≡ []) × (f.winner ≡ 0)) ⊎ ((tops f.count ps ≡ 1) × Holder f.winner f.count ps)
unfolding tops
undrawn [] f (kept a b c d, up, le) e = inl (refl, c)
undrawn (p ∷ ps) f (kept a b c d, up, le) e = absurd (ground (arith, up.0))
undrawn ps f (tied a b d, up, le) e = absurd (ground arith)
undrawn ps f (beaten a b c d, up, le) e = inr (b, c)
undrawn ps f (shared a b d, up, le) e = absurd (ground arith)

drawn :
    (f : Tally) (ps : List Proposal)
    → Tallied no_winner f ps
    → f.is_draw ≡ true
    → (f.count ≡ 0) ⊎ (1 < tops f.count ps)
drawn f ps (kept a b c d) e = inl a
drawn f ps (tied a b d) e = inl a
drawn f ps (beaten a b c d) e = absurd (ground arith)
drawn f ps (shared a b d) e = inr b

-- The loop of `closeVote` over proposals whose rolls are not negative: none has more rolls than the
-- count that it ends with. Without a draw, either there is no proposal, and the winner is 0, or the
-- winner is the id of a proposal that has these rolls, and it is the only one that has them. With a
-- draw, nobody has rolls, or at least two proposals have the most.
pub select_winner-IsUnique :
    (ps : List Proposal)
    → AllNonneg ps
    → AllUpTo (select_winner no_winner ps).count ps
      × ((select_winner no_winner ps).is_draw ≡ false
          → ((ps ≡ []) × ((select_winner no_winner ps).winner ≡ 0))
            ⊎ ((tops (select_winner no_winner ps).count ps ≡ 1)
                × Holder (select_winner no_winner ps).winner (select_winner no_winner ps).count ps))
      × ((select_winner no_winner ps).is_draw ≡ true
          → ((select_winner no_winner ps).count ≡ 0)
            ⊎ (1 < tops (select_winner no_winner ps).count ps))
select_winner-IsUnique ps h =
    let r = outcome ps no_winner (omega arith) h in
    (r.1, undrawn ps (select_winner no_winner ps) r, drawn (select_winner no_winner ps) ps r.0)
