-- ===== src/Puller/Index/Gov/Bounds.antt =====
-- puller/index/govindex.go: the range of a quorum, and the vote that it is taken from.
use mathlib.Core.List.{reverse, reverse-append}
use tezos_index.Common.{
  ℕ, Bool, false, ◌+◌, ◌*◌, ◌/◌, ◌-◌, ◌≤◌, ◌≡◌, refl, subst, ap, ◌∙◌, List, [], ◌∷◌, ◌++◌, Option,
  none, some, arith, if◌then◌else◌, Bool-cases, inl, inr,
}
use tezos_index.Common.Int64.{Int64, lt64, add64-exact, sub64-exact, mul64-exact, div64-exact}
use tezos_index.Chain.Params.{Params}
use tezos_index.Models.Gov.{Vote}
use tezos_index.Puller.Index.Gov.Defs.{Gov, rows_where}
use tezos_index.Puller.Index.Gov.Quorum.{
  is_poll, last_poll, smoothed, capped, next_ema, next_quorum, quorum_by_height,
}

-- Shares are counted in hundredths of a percent.
abbrev pub IsShare : Int64 → Type 0
IsShare a = a ≤ 10000

smoothed_exact : (a b : Int64) → IsShare a → IsShare b → smoothed a b ≡ (8 * a + 2 * b) / 10
unfolding smoothed
smoothed_exact a b h k =
    rw
      (
        mul64-exact 8 a (omega arith),
        mul64-exact 2 b (omega arith),
        add64-exact (8 * a) (2 * b) (omega arith),
      )
      (div64-exact (8 * a + 2 * b) 10 (omega arith) (omega arith))

smoothed-IsShare : (a b : Int64) → IsShare a → IsShare b → IsShare (smoothed a b)
smoothed-IsShare a b h k = rw (smoothed_exact a b h k) (omega arith)

share_of : (e d : ℕ) → IsShare e → e * d / 10000 ≤ d
share_of e d h = grind arith

product_of : (e d : ℕ) → IsShare e → d ≤ 10000 → e * d ≤ 100000000
product_of e d h k = grind arith

-- The bounds of the quorum are shares, the lower one first.
pub record IsRange (p : Params) : Type 0 where
  pub ordered : p.quorum_min ≤ p.quorum_max
  pub share : IsShare p.quorum_max

-- The shares of a vote.
pub record HasShares (v : Vote) : Type 0 where
  pub quorum : IsShare v.quorum_pct
  pub turnout : IsShare v.turnout_pct
  pub ema : IsShare v.turnout_ema

module _ (p : Params) (r : IsRange p) where
  abbrev width : ℕ
  width = p.quorum_max - p.quorum_min

  capped_exact : (e : Int64) → IsShare e → capped p e ≡ p.quorum_min + e * width / 10000
  unfolding capped
  capped_exact e h =
      let part = share_of e width h in
      let product = product_of e width h (omega (arith, r.ordered, r.share)) in
      rw
        (
          sub64-exact p.quorum_max p.quorum_min r.ordered (omega (arith, r.share)),
          mul64-exact e width (omega (arith, product)),
          div64-exact (e * width) 10000 (omega (arith, product)) (omega arith),
        )
        (add64-exact p.quorum_min (e * width / 10000) (omega (arith, part, r.ordered, r.share)))

  capped_bounds :
      (e : Int64) → IsShare e → (p.quorum_min ≤ capped p e) × (capped p e ≤ p.quorum_max)
  capped_bounds e h =
      rw (capped_exact e h) (omega arith, omega (arith, share_of e width h, r.ordered))

  next_ema-IsShare : (v : Vote) → HasShares v → IsShare (next_ema p v)
  unfolding next_ema
  next_ema-IsShare v h = ground (
    arith,
    r.share,
    smoothed-IsShare v.quorum_pct v.turnout_pct h.quorum h.turnout,
    smoothed-IsShare v.turnout_ema v.turnout_pct h.ema h.turnout,
  )

  abbrev InRange : Int64 × Int64 → Type 0
  InRange q = (p.quorum_min ≤ q.0) × (q.0 ≤ p.quorum_max) × IsShare q.1

  next_quorum-InRange :
      lt64 p.version 5 ≡ false
      → (o : Option Vote) → ((v : Vote) → o ≡ some v → HasShares v)
      → InRange (next_quorum p o)
  unfolding next_quorum
  next_quorum-InRange late none h =
      let b = capped_bounds p.quorum_max r.share in rw late (b.0, b.1, r.share)
  next_quorum-InRange late (some v) h =
      let e = next_ema-IsShare v (h v refl) in
      let b = capped_bounds (next_ema p v) e in rw late (b.0, b.1, e)

-- The first poll of a list.
unfoldable pub first_poll : List Vote → Option Vote
first_poll [] = none
first_poll (v ∷ vs) =
    let rest = first_poll vs in if is_poll v.voting_period_kind then some v else rest

last_poll-append :
    (o : Option Vote) (xs ys : List Vote) → last_poll o (xs ++ ys) ≡ last_poll (last_poll o xs) ys
unfolding last_poll
last_poll-append o [] ys = refl
last_poll-append o (x ∷ xs) ys =
    last_poll-append (if is_poll x.voting_period_kind then some x else o) xs ys

last_poll-reverse : (vs : List Vote) → last_poll none (reverse vs) ≡ first_poll vs
unfolding last_poll first_poll
last_poll-reverse [] = refl
last_poll-reverse (v ∷ vs) =
    ap (last_poll none) (reverse-append (v ∷ []) vs)
    ∙ last_poll-append none (reverse vs) (v ∷ [])
    ∙ ap (λ (o : Option Vote). if is_poll v.voting_period_kind then some v else o)
        (last_poll-reverse vs)

-- The quorum of a new vote comes from the oldest testing or promotion vote that started before it,
-- and not from the most recent one.
pub quorum_by_height-first_poll :
    (p : Params) (height : Int64) (g : Gov)
    → quorum_by_height p height g
      ≡ next_quorum p (first_poll (rows_where (λ v. lt64 v.start_height height) g.votes))
unfolding quorum_by_height
quorum_by_height-first_poll p height g =
    ap (next_quorum p) (last_poll-reverse (rows_where (λ v. lt64 v.start_height height) g.votes))

abbrev pub AllShares : List Vote → Type 0
AllShares [] = Unit {0}
AllShares (v ∷ vs) = HasShares v × AllShares vs

first_poll-rows_where :
    (q : Vote → Bool) (vs : List Vote) (v : Vote)
    → AllShares vs
    → first_poll (rows_where q vs) ≡ some v
    → HasShares v
unfolding first_poll rows_where
first_poll-rows_where q [] v h e = absurd (ground (arith, e))
first_poll-rows_where q (w ∷ vs) v h e = elim (Bool-cases (q w)) [
  | inr out ↦ first_poll-rows_where q vs v h.1 (rw out at e)
  | inl inside ↦ elim (Bool-cases (is_poll w.voting_period_kind)) [
    | inr other ↦ first_poll-rows_where q vs v h.1 (ground (arith, e, inside, other))
    | inl poll ↦ subst (λ (o : Vote). HasShares o) (ground (arith, e, inside, poll)) h.0
  ]
]

-- Since protocol 5, the quorum of a new vote lies between the two bounds of the protocol, and the
-- average turnout that is stored with it is a share, if the bounds are shares in order and the
-- quorum, the turnout and the average turnout of every vote in the table are shares.
pub quorum_by_height_bounds :
    (p : Params) (height : Int64) (g : Gov)
    → lt64 p.version 5 ≡ false
    → IsRange p
    → AllShares g.votes
    → (p.quorum_min ≤ (quorum_by_height p height g).0)
      × ((quorum_by_height p height g).0 ≤ p.quorum_max)
      × IsShare (quorum_by_height p height g).1
quorum_by_height_bounds p height g late r h = rw (quorum_by_height-first_poll p height g) (
    next_quorum-InRange p r late (first_poll (rows_where (λ v. lt64 v.start_height height) g.votes))
      (λ v e. first_poll-rows_where (λ w. lt64 w.start_height height) g.votes v h e))
