-- ===== src/Common/Int64.antt =====
-- Go's int64 as its bit pattern, a number below 2 ^ 64: addition, subtraction, negation and
-- multiplication wrap around, the order is the signed one, division truncates towards zero.
use Prim.Native.Nat.{ℕ, ◌+◌, ◌-◌, ◌*◌, ◌/◌, ◌%◌, ◌^◌, ◌≤◌, ◌<◌}
use mathlib.Core.Path.{◌≡◌}
use mathlib.Core.Bool.{Bool}
use native.Mathlib.Omega.{arith}
use tezos_index.Common.Tests.{ltb, leb, if◌then◌else◌}

abbrev pub Int64 : Type 0
Int64 = ℕ

-- The pattern of a value that an int64 variable holds.
abbrev pub IsInt64 : Int64 → Type 0
IsInt64 a = a < 2 ^ 64

-- A value that is zero or more.
abbrev pub IsNonneg : Int64 → Type 0
IsNonneg a = a < 2 ^ 63

unfoldable pub add64 : Int64 → Int64 → Int64
add64 a b = (a + b) % 2 ^ 64

unfoldable pub sub64 : Int64 → Int64 → Int64
sub64 a b = (a + (2 ^ 64 - b % 2 ^ 64)) % 2 ^ 64

unfoldable pub neg64 : Int64 → Int64
neg64 a = (2 ^ 64 - a % 2 ^ 64) % 2 ^ 64

unfoldable pub mul64 : Int64 → Int64 → Int64
mul64 a b = a * b % 2 ^ 64

unfoldable pub lt64 : Int64 → Int64 → Bool
lt64 a b = ltb ((a + 2 ^ 63) % 2 ^ 64) ((b + 2 ^ 63) % 2 ^ 64)

unfoldable pub is_neg : Int64 → Bool
is_neg a = leb (2 ^ 63) a

-- The absolute value, as a number up to 2 ^ 63.
unfoldable pub magnitude : Int64 → ℕ
unfolding is_neg
magnitude a = if is_neg a then 2 ^ 64 - a else a

-- `a / b` and `a % b` for a divisor that is not zero; the callers treat zero, where Go panics.
unfoldable pub div64 : Int64 → Int64 → Int64
unfolding magnitude neg64
div64 a b =
    let q = magnitude a / magnitude b % 2 ^ 64 in
    if is_neg a then (if is_neg b then q else neg64 q) else (if is_neg b then neg64 q else q)

unfoldable pub rem64 : Int64 → Int64 → Int64
unfolding magnitude neg64
rem64 a b = let r = magnitude a % magnitude b in if is_neg a then neg64 r else r

-- What the operations do where nothing overflows.
pub add64-exact : (a b : Int64) → a + b < 2 ^ 64 → add64 a b ≡ a + b
unfolding add64
add64-exact a b h = omega arith

pub sub64-exact : (a b : Int64) → b ≤ a → a < 2 ^ 64 → sub64 a b ≡ a - b
unfolding sub64
sub64-exact a b h k = omega arith

pub mul64-exact : (a b : Int64) → a * b < 2 ^ 64 → mul64 a b ≡ a * b
unfolding mul64
mul64-exact a b h = omega arith

pub lt64-exact : (a b : Int64) → IsNonneg a → IsNonneg b → lt64 a b ≡ ltb a b
unfolding lt64
lt64-exact a b h k = ground arith

pub div64-exact : (a b : Int64) → IsNonneg a → IsNonneg b → div64 a b ≡ a / b
unfolding div64
div64-exact a b h k = ground arith

pub rem64-exact : (a b : Int64) → IsNonneg a → IsNonneg b → rem64 a b ≡ a % b
unfolding rem64
rem64-exact a b h k = ground arith

pub add64-IsInt64 : (a b : Int64) → IsInt64 (add64 a b)
unfolding add64
add64-IsInt64 a b = omega arith

pub sub64-IsInt64 : (a b : Int64) → IsInt64 (sub64 a b)
unfolding sub64
sub64-IsInt64 a b = omega arith

-- The operations form a group on the patterns.
pub add64_comm : (a b : Int64) → add64 a b ≡ add64 b a
unfolding add64
add64_comm a b = omega arith

pub add64_assoc : (a b c : Int64) → add64 (add64 a b) c ≡ add64 a (add64 b c)
unfolding add64
add64_assoc a b c = omega arith

pub sub64-add64 : (a b : Int64) → IsInt64 a → sub64 (add64 a b) b ≡ a
unfolding add64 sub64
sub64-add64 a b h = omega arith

pub add64-sub64 : (a b : Int64) → IsInt64 a → add64 (sub64 a b) b ≡ a
unfolding add64 sub64
add64-sub64 a b h = omega arith

pub sub64_self : (a : Int64) → sub64 a a ≡ 0
unfolding sub64
sub64_self a = omega arith
