-- ===== src/Micheline/Wire.antt =====
-- micheline/primitives.go: what the binary form of a node is put together from: lengths of four
-- bytes, and texts and lists behind their length.
use tezos_index.Common.{ℕ, ◌+◌, ◌*◌, ◌/◌, ◌%◌, ◌^◌, List, [], ◌∷◌, ◌++◌, length, take, drop, ltb}
use tezos_index.Common.{if◌then◌else◌}

-- What a read gives: a value, `io.ErrShortBuffer`, the error of an unknown tag, or a run-time
-- panic. A recursion on fuel may also give up.
pub data Read (A : Type 0) : Type 0 where
  ok : A → Read A
  short_buffer unknown_type panic out_of_fuel : Read A

infixl 5 ◌>>=◌
abbrev pub ◌>>=◌ : {A B : Type 0} → Read A → (A → Read B) → Read B
ok a >>= f = f a
short_buffer >>= f = short_buffer
unknown_type >>= f = unknown_type
panic >>= f = panic
out_of_fuel >>= f = out_of_fuel

-- `binary.BigEndian.PutUint32` of `uint32(n)`
unfoldable pub put_uint32 : ℕ → List ℕ
put_uint32 n = (n / 2 ^ 24 % 256) ∷ (n / 2 ^ 16 % 256) ∷ (n / 2 ^ 8 % 256) ∷ (n % 256) ∷ []

-- `binary.BigEndian.Uint32(buf.Next(4))`: an index out of range where the buffer has less.
unfoldable pub get_uint32 : List ℕ → Read (ℕ × List ℕ)
get_uint32 (a ∷ b ∷ c ∷ d ∷ rest) = ok (a * 2 ^ 24 + b * 2 ^ 16 + c * 2 ^ 8 + d, rest)
get_uint32 _ = panic

-- Bytes behind their length.
unfoldable pub put_sized : List ℕ → List ℕ
unfolding put_uint32
put_sized bytes = put_uint32 (length bytes) ++ bytes

-- Bytes behind their length, cross-checked against what is left in the buffer.
unfoldable pub get_sized : List ℕ → Read (List ℕ × List ℕ)
unfolding get_uint32
get_sized buf = get_uint32 buf >>= λ (size, rest).
    if ltb (length rest) size then short_buffer else ok (take size rest, drop size rest)

-- The same with no check: `Next` gives what is left.
unfoldable pub get_unchecked : List ℕ → Read (List ℕ × List ℕ)
unfolding get_uint32
get_unchecked buf = get_uint32 buf >>= λ (size, rest). ok (take size rest, drop size rest)

-- `buf.Next(1)`, which must not be empty.
unfoldable pub get_byte : List ℕ → Read (ℕ × List ℕ)
get_byte [] = short_buffer
get_byte (b ∷ rest) = ok (b, rest)
