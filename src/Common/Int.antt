-- ===== src/Common/Int.antt =====
-- Integers of any size over the native numbers: Go's big.Int.
use Prim.Native.Nat.{ℕ, zero, suc, ◌-◌, ◌%◌, ◌^◌}
use mathlib.Core.Path.{◌≡◌, refl}
use mathlib.Core.Bool.{Bool, true, false}
use tezos_index.Common.Tests.{if◌then◌else◌}
use tezos_index.Common.Int64.{Int64}

-- `negsuc n` is -(n + 1).
pub data ℤ : Type 0 where
  pos : ℕ → ℤ
  negsuc : ℕ → ℤ

-- The opposite of a natural number.
abbrev pub neg_ℕ : ℕ → ℤ
neg_ℕ zero = pos 0
neg_ℕ (suc n) = negsuc n

-- The absolute value, and whether the integer is below zero.
abbrev pub nat_abs : ℤ → ℕ
nat_abs (pos n) = n
nat_abs (negsuc n) = suc n

abbrev pub is_negative : ℤ → Bool
is_negative (pos n) = false
is_negative (negsuc n) = true

-- The integer of a sign and an absolute value.
abbrev pub signed : Bool → ℕ → ℤ
signed negative n = if negative then neg_ℕ n else pos n

pub signed-nat_abs : (z : ℤ) → signed (is_negative z) (nat_abs z) ≡ z
signed-nat_abs (pos n) = refl
signed-nat_abs (negsuc n) = refl

-- `Int64()`: the low 64 bits in two's complement.
abbrev pub to_int64 : ℤ → Int64
to_int64 (pos n) = n % 2 ^ 64
to_int64 (negsuc n) = 2 ^ 64 - 1 - n % 2 ^ 64
