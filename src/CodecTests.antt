-- ===== src/CodecTests.antt =====
-- Runs of the binary forms at concrete inputs.
use tezos_index.Common.{ℕ, ◌<◌, ◌≡◌, ◌≢◌, arith, List, [], ◌∷◌, ◌++◌, length}
use tezos_index.Common.Int.{ℤ, negsuc}
use tezos_index.Micheline.Wire.{Read, ok}
use tezos_index.Micheline.Zarith.{put_z, get_z}
use tezos_index.Micheline.Zarith.RoundTrip.{get_z-put_z}
use tezos_index.Micheline.Tree.{PrimType, Prim}
use tezos_index.Micheline.Annots.{join}
use tezos_index.Micheline.Codec.{encode, encode_args, decode, type_tag, t_int}
use tezos_index.Micheline.Codec.Expr.{Expr, Exprs, Fits, node, nodes}
use tezos_index.Micheline.Codec.Expr.RoundTrip.{decode-encode-node}
use tezos_index.Micheline.Codec.Expr.Total.{IsNode, decode_total}
use tezos_index.Micheline.Codec.Truncated.{IsSized, decode_short_panics}

abbrev minus_300 : ℤ
minus_300 = negsuc 299

-- `PUSH int -300 ; SWAP`, with an annotation on the first, and what follows.
abbrev program : Expr
program = Expr.sequence (
    Exprs.item (Expr.op2_anno 67 (Expr.op0 t_int) (Expr.int minus_300) ((37 ∷ 97 ∷ []) ∷ []))
      (Exprs.item (Expr.op0 76) Exprs.end))

get_z-put_z_example : get_z (put_z minus_300 ++ (7 ∷ [])) ≡ ok (minus_300, 7 ∷ [])
get_z-put_z_example = get_z-put_z minus_300 (7 ∷ [])

decode-encode-node_example : decode (encode (node program) ++ (1 ∷ [])) ≡ ok (node program, 1 ∷ [])
unfolding Fits join encode_args encode nodes
decode-encode-node_example = decode-encode-node program (1 ∷ []) (
  ((tt, tt, (((λ e. omega (arith, e)), ((λ e. omega (arith, e)), tt)), omega arith)), (tt, tt)),
  omega arith,
)

-- A sequence of one byte, which is missing.
abbrev cut_list : List ℕ
cut_list = 2 ∷ 0 ∷ 0 ∷ 0 ∷ 1 ∷ []

decode_total_example :
    (decode cut_list ≢ Read.out_of_fuel)
    × ((p : Prim) (rest : List ℕ)
        → decode cut_list ≡ ok (p, rest)
        → IsNode p × (length rest < length cut_list))
decode_total_example = decode_total cut_list

decode_short_panics_example : decode (type_tag PrimType.bytes ∷ 0 ∷ 9 ∷ []) ≡ Read.panic
decode_short_panics_example =
    decode_short_panics PrimType.bytes (0 ∷ 9 ∷ []) IsSized.bytes (omega arith)
