-- ===== src/Micheline/Zarith.antt =====
-- micheline/zarith.go: integers in groups of seven bits, the lowest first; the first group has six
-- bits and the sign. The groups do not overlap, so the bitwise or that joins them is an addition.
pub mod RoundTrip
use mathlib.Core.Logic.{dite}
use mathlib.Core.WellFounded.{Acc}
use native.Mathlib.Decide.{dec_lt}
use tezos_index.Common.{ℕ, ◌+◌, ◌*◌, ◌/◌, ◌%◌, ◌^◌, ◌<◌, List, [], ◌∷◌, ltb, leb}
use tezos_index.Common.{if◌then◌else◌, ◌==◌, arith}
use tezos_index.Common.Int.{ℤ, nat_abs, is_negative, signed}
use tezos_index.Common.Order.{lt_acc}
use tezos_index.Micheline.Wire.{Read, ok, short_buffer, ◌>>=◌}

-- The loop of `EncodeBuffer`: the number falls with each group.
unfoldable pub groups_acc : (x : ℕ) → Acc ◌<◌ x → List ℕ
groups_acc x (Acc.intro _ smaller) =
    dite (dec_lt x 128) (λ h. x ∷ [])
      (λ h. (x % 128 + 128) ∷ groups_acc (x / 128) (smaller (x / 128) (omega arith)))

unfoldable pub groups : ℕ → List ℕ
unfolding groups_acc lt_acc dec_lt
groups x = groups_acc x (lt_acc x)

-- The bit of the sign.
abbrev pub sign_bit : ℤ → ℕ
sign_bit z = if is_negative z then 64 else 0

-- `Z.EncodeBuffer`: numbers below 0x20 take one byte.
unfoldable pub put_z : ℤ → List ℕ
unfolding groups
put_z z =
    let x = nat_abs z in
    if ltb x 32 then (x + sign_bit z) ∷ [] else (x % 64 + 128 + sign_bit z) ∷ groups (x / 64)

-- The loop of `DecodeBuffer`, with `s` bits read into `x`.
unfoldable pub get_groups : ℕ → ℕ → List ℕ → Read (ℕ × List ℕ)
get_groups x s [] = short_buffer
get_groups x s (b ∷ buf) =
    let more = get_groups (x + b % 128 * 2 ^ s) (s + 7) buf in
    if ltb b 128 then ok (x + b * 2 ^ s, buf) else more

-- `Z.DecodeBuffer`
unfoldable pub get_z : List ℕ → Read (ℤ × List ℕ)
unfolding get_groups
get_z [] = short_buffer
get_z (b ∷ buf) =
    (if leb 128 b then get_groups (b % 64) 6 buf else ok (b % 64, buf)) >>= λ (x, rest).
    ok (signed (b / 64 % 2 == 1) x, rest)
