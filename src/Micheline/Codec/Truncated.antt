-- ===== src/Micheline/Codec/Truncated.antt =====
-- micheline/primitives.go: `DecodeBuffer` on a buffer that ends inside the four bytes of a length.
use tezos_index.Common.{ℕ, zero, suc, ◌+◌, ◌*◌, ◌<◌, ◌≡◌, refl, arith, List, [], ◌∷◌, length}
use tezos_index.Micheline.Wire.{Read, get_uint32, get_sized}
use tezos_index.Micheline.Tree.{PrimType}
use tezos_index.Micheline.Codec.{get_tagged, get_content, parse_tag, type_tag, decode, decode_fuel}

-- The types whose content is a length and that many bytes.
pub data IsSized : PrimType → Type 0 where
  string : IsSized PrimType.string
  sequence : IsSized PrimType.sequence
  bytes : IsSized PrimType.bytes

get_sized_short : (buf : List ℕ) → length buf < 4 → get_sized buf ≡ Read.panic
unfolding get_sized get_uint32
get_sized_short [] h = refl
get_sized_short (a ∷ []) h = refl
get_sized_short (a ∷ b ∷ []) h = refl
get_sized_short (a ∷ b ∷ c ∷ []) h = refl
get_sized_short (a ∷ b ∷ c ∷ d ∷ rest) h = absurd (omega (arith, h))

decode_fuel_short :
    (n : ℕ) (type : PrimType) (buf : List ℕ)
    → IsSized type
    → length buf < 4
    → 0 < n
    → decode_fuel n (type_tag type ∷ buf) ≡ Read.panic
unfolding decode_fuel get_tagged get_content parse_tag type_tag
decode_fuel_short zero _ buf s h k = absurd (omega arith)
decode_fuel_short (suc n) _ buf IsSized.string h k = rw (get_sized_short buf h)
decode_fuel_short (suc n) _ buf IsSized.sequence h k = rw (get_sized_short buf h)
decode_fuel_short (suc n) _ buf IsSized.bytes h k = rw (get_sized_short buf h)

-- A text, a sequence or bytes whose buffer ends inside the four bytes of the length: reading it is a
-- run-time panic, not the error of a short buffer.
pub decode_short_panics :
    (type : PrimType) (buf : List ℕ)
    → IsSized type
    → length buf < 4
    → decode (type_tag type ∷ buf) ≡ Read.panic
unfolding decode
decode_short_panics type buf s h =
    decode_fuel_short (2 * length (type_tag type ∷ buf) + 2) type buf s h (omega arith)
