-- ===== src/Micheline/Zarith/RoundTrip.antt =====
-- micheline/zarith.go: reading a number that was written.
use mathlib.Core.WellFounded.{Acc}
use native.Mathlib.Nat.{div-add-mod}
use native.Mathlib.Numerals.{towards_suc}
use tezos_index.Common.{ℕ, ◌+◌, ◌*◌, ◌/◌, ◌%◌, ◌^◌, ◌<◌, ◌≡◌, ap, ◌∙◌, arith, List, [], ◌∷◌, ◌++◌}
use tezos_index.Common.{Bool, true, false, ltb, if◌then◌else◌}
use tezos_index.Common.Int.{ℤ, nat_abs, is_negative, signed, signed-nat_abs}
use tezos_index.Common.Order.{lt_acc}
use tezos_index.Micheline.Wire.{ok}
use tezos_index.Micheline.Zarith.{groups_acc, groups, get_groups, put_z, get_z}

-- A number is its lowest seven bits and the rest, which weighs 128 times as much.
group_weight : (n k : ℕ) → n / 128 * 2 ^ (k + 7) + n % 128 * 2 ^ k ≡ n * 2 ^ k
group_weight n k =
    let weight : 2 ^ (k + 7) ≡ 128 * 2 ^ k = simp towards_suc (omega arith) in
    let high = ap (λ (p : ℕ). n / 128 * p) weight in
    let whole = ap (λ (m : ℕ). m * 2 ^ k) (div-add-mod n 128) in omega (arith, high, whole)

get_groups-groups_acc :
    (n : ℕ) (falls : Acc ◌<◌ n) (low k : ℕ) (rest : List ℕ)
    → get_groups low k (groups_acc n falls ++ rest) ≡ ok (low + n * 2 ^ k, rest)
unfolding groups_acc get_groups
get_groups-groups_acc n (Acc.intro _ below) low k rest =
    let more = λ (h : n / 128 < n).
      get_groups-groups_acc (n / 128) (below (n / 128) h) (low + n % 128 * 2 ^ k) (k + 7) rest in
    grind (arith, more, group_weight n k)

get_groups-groups :
    (n low k : ℕ) (rest : List ℕ) → get_groups low k (groups n ++ rest) ≡ ok (low + n * 2 ^ k, rest)
unfolding groups
get_groups-groups n low k rest = get_groups-groups_acc n (lt_acc n) low k rest

get_z-put_parts :
    (negative : Bool) (x : ℕ) (rest : List ℕ)
    → let bit : ℕ = if negative then 64 else 0 in
      get_z ((if ltb x 32 then (x + bit) ∷ [] else (x % 64 + 128 + bit) ∷ groups (x / 64)) ++ rest)
      ≡ ok (signed negative x, rest)
unfolding get_z
get_z-put_parts true x rest = ground (arith, get_groups-groups (x / 64) (x % 64) 6 rest)
get_z-put_parts false x rest = ground (arith, get_groups-groups (x / 64) (x % 64) 6 rest)

-- Every integer is read back from its bytes, whatever follows them.
pub get_z-put_z : (z : ℤ) (rest : List ℕ) → get_z (put_z z ++ rest) ≡ ok (z, rest)
unfolding put_z
get_z-put_z z rest =
    get_z-put_parts (is_negative z) (nat_abs z) rest
    ∙ ap (λ (y : ℤ). ok (y, rest)) (signed-nat_abs z)
