-- ===== src/Chain/Params/Heights.antt =====
-- chain/params.go: which heights belong to a cycle. The bounds hold for the parameters of every
-- network; they keep the int64 arithmetic from wrapping around.
use native.Mathlib.Nat.{
  div-add-mod', mod-lt, mod-eq_of_lt, mod_self, mul-add-mod_self_right, div-le_self,
  div-eq_of_lt-le,
}
use tezos_index.Common.{
  ℕ, ◌==◌, ap, ◌∙◌, ◌≡◌, ◌↔◌, ◌≤◌, ◌<◌, ◌+◌, ◌-◌, ◌*◌, ◌/◌, ◌%◌, ◌^◌, arith, true, some,
}
use tezos_index.Common.Int64.{Int64, add64-exact, sub64-exact, mul64-exact, div64-exact}
use tezos_index.Common.Int64.{rem64-exact, lt64-exact}
use tezos_index.Chain.Params.{Params, cycle_from_height, cycle_start_height, cycle_end_height}
use tezos_index.Chain.Params.{is_cycle_start, is_cycle_end, positive_multiple}

module _ (p : Params) (height : Int64) (bpc : 0 < p.blocks_per_cycle) (pos : 0 < height)
    (bound : height + p.blocks_per_cycle < 2 ^ 63) where
  cycle_from_height-eq : cycle_from_height p height ≡ some ((height - 1) / p.blocks_per_cycle)
  unfolding cycle_from_height
  cycle_from_height-eq =
      ground (arith, sub64-exact height 1, div64-exact (height - 1) p.blocks_per_cycle)

pub cycle_start_height-eq :
    (p : Params) (c : Int64)
    → c * p.blocks_per_cycle + 1 < 2 ^ 64
    → cycle_start_height p c ≡ c * p.blocks_per_cycle + 1
unfolding cycle_start_height
cycle_start_height-eq p c h =
    ground (arith, mul64-exact c p.blocks_per_cycle, add64-exact (c * p.blocks_per_cycle) 1)

pub cycle_end_height-eq :
    (p : Params) (c : Int64)
    → c + 1 < 2 ^ 64
    → (c + 1) * p.blocks_per_cycle < 2 ^ 64
    → cycle_end_height p c ≡ (c + 1) * p.blocks_per_cycle
unfolding cycle_end_height
cycle_end_height-eq p c small h =
    ground (arith, add64-exact c 1, mul64-exact (c + 1) p.blocks_per_cycle)

pub products :
    (c b : ℕ) → 0 < b → ((c + 2) * b ≡ c * b + b + b) × ((c + 1) * b ≡ c * b + b) × (c ≤ c * b)
products c b h = grind arith

multiple_iff :
    (height x b : ℕ)
    → 0 < height
    → height < 2 ^ 63
    → x + b < 2 ^ 63
    → 0 < b
    → positive_multiple height x b ≡ some (x % b == 0)
unfolding positive_multiple
multiple_iff height x b pos small bound h = ground (arith, lt64-exact 0 height, rem64-exact x b)

start_rem : (n b : ℕ) → 0 < b → (n % b ≡ 0) ↔ (n ≡ n / b * b)
start_rem n b h = omega (arith, div-add-mod' n b)

end_rem : (n b : ℕ) → 0 < b → 0 < n → (n % b ≡ 0) ↔ (n ≡ (n - 1) / b * b + b)
end_rem n b h pos =
    let r = (n - 1) % b + 1 in
    let n-eq : n ≡ (n - 1) / b * b + r = omega (arith, div-add-mod' (n - 1) b) in
    let rem : n % b ≡ r % b = ap (λ (t : ℕ). t % b) n-eq ∙ mul-add-mod_self_right _ b r in
    ground (arith, rem, n-eq, mod-lt (n - 1) h, mod-eq_of_lt {n = r} {m = b}, mod_self b)

-- Where `n` lies in the multiples of `b`.
around :
    (n b : ℕ) → 0 < b → (n / b * b ≤ n) × (n < n / b * b + b) × ((n / b + 1) * b ≡ n / b * b + b)
around n b h = omega (arith, div-add-mod' n b, mod-lt n h)

-- Every height from 1 on lies in the cycle that `CycleFromHeight` gives: between the start and
-- the end height of that cycle, which are a cycle's length apart. The conditions: a cycle has at
-- least one block, and the height plus the length of a cycle is below 2 ^ 63.
pub cycle_from_height-range :
    (p : Params) (height : Int64)
    → 0 < p.blocks_per_cycle
    → 0 < height
    → height + p.blocks_per_cycle < 2 ^ 63
    → (c : Int64) × (cycle_from_height p height ≡ some c)
      × (cycle_start_height p c ≤ height)
      × (height ≤ cycle_end_height p c)
      × (cycle_end_height p c + 1 ≡ cycle_start_height p c + p.blocks_per_cycle)
cycle_from_height-range p height bpc pos bound =
    let b = p.blocks_per_cycle in
    let c = (height - 1) / b in
    let (below, above, next) = around (height - 1) b bpc in
    let first = cycle_start_height-eq p c (omega arith) in
    let last = cycle_end_height-eq p c (omega (arith, div-le_self (height - 1) b)) (omega arith) in
    (
      c,
      cycle_from_height-eq p height bpc pos bound,
      omega (arith, first),
      omega (arith, last),
      omega (arith, first, last),
    )

-- The converse: a height between the start and the end height of a cycle lies in that cycle.
pub cycle_from_height_unique :
    (p : Params) (c height : Int64)
    → 0 < p.blocks_per_cycle
    → (c + 2) * p.blocks_per_cycle < 2 ^ 63
    → cycle_start_height p c ≤ height
    → height ≤ cycle_end_height p c
    → cycle_from_height p height ≡ some c
cycle_from_height_unique p c height bpc bound lo hi =
    let b = p.blocks_per_cycle in
    let (split, next, wide) = products c b bpc in
    let first = cycle_start_height-eq p c (omega arith) in
    let last = cycle_end_height-eq p c (omega arith) (omega arith) in
    let c-eq : (height - 1) / b ≡ c =
      div-eq_of_lt-le b (omega (arith, first)) (omega (arith, last)) in
    rw c-eq at (cycle_from_height-eq p height bpc (omega arith) (omega (arith, first, last)))

-- `IsCycleStart` and `IsCycleEnd` hold at the start and at the end height of the height's own
-- cycle, and at no other height.
pub is_cycle_start-is_cycle_end :
    (p : Params) (height c : Int64)
    → 0 < p.blocks_per_cycle
    → 0 < height
    → height + p.blocks_per_cycle < 2 ^ 63
    → cycle_from_height p height ≡ some c
    → ((is_cycle_start p height ≡ some true) ↔ (height ≡ cycle_start_height p c))
      × ((is_cycle_end p height ≡ some true) ↔ (height ≡ cycle_end_height p c))
unfolding is_cycle_start is_cycle_end
is_cycle_start-is_cycle_end p height c bpc pos bound e =
    let b = p.blocks_per_cycle in
    let c-eq : (height - 1) / b ≡ c = cc (cycle_from_height-eq p height bpc pos bound) in
    let (below, above, next) = around (height - 1) b bpc in
    let first = cycle_start_height-eq p ((height - 1) / b) (omega arith) in
    let last =
      cycle_end_height-eq p ((height - 1) / b) (omega (arith, div-le_self (height - 1) b))
        (omega arith) in
    let starts = multiple_iff height (height - 1) b pos (omega arith) (omega arith) bpc in
    let ends = multiple_iff height height b pos (omega arith) (omega arith) bpc in
    let minus = sub64-exact height 1 in
    rw (← c-eq) (
      ground (
        arith,
        minus,
        starts,
        ends,
        first,
        last,
        start_rem (height - 1) b bpc,
        end_rem height b bpc pos,
      ))
