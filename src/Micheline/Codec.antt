-- ===== src/Micheline/Codec.antt =====
-- micheline/primitives.go: the binary form of nodes, `EncodeBuffer` and `DecodeBuffer`.
pub mod Expr
pub mod Truncated
use tezos_index.Common.{
  ℕ, zero, suc, List, [], ◌∷◌, ◌++◌, ◌+◌, ◌*◌, false, length, ◌==◌, if◌then◌else◌, Option, none,
  some,
}
use tezos_index.Common.Int.{ℤ, pos}
use tezos_index.Micheline.Wire.{Read, ok, ◌>>=◌, put_sized, get_sized, get_unchecked, get_byte}
use tezos_index.Micheline.Zarith.{put_z, get_z}
use tezos_index.Micheline.Annots.{join, split}
use tezos_index.Micheline.Tree.{PrimType, Head, Prim, Prims}

-- The byte of a type, in the order of the constants.
unfoldable pub type_tag : PrimType → ℕ
type_tag PrimType.int = 0
type_tag PrimType.string = 1
type_tag PrimType.sequence = 2
type_tag PrimType.nullary = 3
type_tag PrimType.nullary_anno = 4
type_tag PrimType.unary = 5
type_tag PrimType.unary_anno = 6
type_tag PrimType.binary = 7
type_tag PrimType.binary_anno = 8
type_tag PrimType.variadic_anno = 9
type_tag PrimType.bytes = 10

-- `strings.Join(p.Anno, " ")` behind its length.
unfoldable pub put_anno : List (List ℕ) → List ℕ
unfolding join put_sized
put_anno anno = put_sized (join anno)

-- What follows the tag. `args` are the bytes of the arguments, one behind the other.
unfoldable pub put_content : PrimType → Head → List ℕ → List ℕ
unfolding put_z put_sized put_anno
put_content PrimType.int h args = put_z h.int
put_content PrimType.string h args = put_sized h.string
put_content PrimType.sequence h args = put_sized args
put_content PrimType.nullary h args = h.op_code ∷ []
put_content PrimType.nullary_anno h args = h.op_code ∷ put_anno h.anno
put_content PrimType.unary h args = h.op_code ∷ args
put_content PrimType.unary_anno h args = h.op_code ∷ (args ++ put_anno h.anno)
put_content PrimType.binary h args = h.op_code ∷ args
put_content PrimType.binary_anno h args = h.op_code ∷ (args ++ put_anno h.anno)
put_content PrimType.variadic_anno h args = h.op_code ∷ (put_sized args ++ put_anno h.anno)
put_content PrimType.bytes h args = put_sized h.bytes

-- `EncodeBuffer`
unfoldable mutual
  unfolding type_tag put_content

  pub encode : Prim → List ℕ
  encode (Prim.prim h args) = type_tag h.type ∷ put_content h.type h (encode_args args)

  pub encode_args : Prims → List ℕ
  encode_args Prims.end = []
  encode_args (Prims.arg p ps) = encode p ++ encode_args ps

-- A node with nothing set but its type and its op code.
abbrev pub bare : PrimType → ℕ → Head
bare type op_code = record {
  type = type;
  op_code = op_code;
  anno = [];
  int = pos 0;
  string = [];
  bytes = [];
  was_packed = false;
}

-- The op codes of a number, a text, a list and bytes.
abbrev pub t_int : ℕ
t_int = 0x5b

abbrev pub t_list : ℕ
t_list = 0x5f

abbrev pub t_string : ℕ
t_string = 0x68

abbrev pub t_bytes : ℕ
t_bytes = 0x69

abbrev pub one_arg : Prim → Prims
one_arg p = Prims.arg p Prims.end

abbrev pub two_args : Prim → Prim → Prims
two_args p q = Prims.arg p (Prims.arg q Prims.end)

-- The annotations behind their length, after which the node is complete.
unfoldable pub get_anno : PrimType → ℕ → Prims → List ℕ → Read (Prim × List ℕ)
unfolding get_sized split
get_anno type op_code args buf = get_sized buf >>= λ (anno, rest).
    ok (Prim.prim (record (bare type op_code) { anno = split anno }) args, rest)

-- What follows the tag, given how one argument is read and how a whole buffer of them is.
unfoldable pub get_content :
    (List ℕ → Read (Prim × List ℕ))
    → (List ℕ → Read Prims)
    → PrimType
    → List ℕ
    → Read (Prim × List ℕ)
unfolding get_z get_sized get_unchecked get_byte get_anno
get_content one all PrimType.int buf = get_z buf >>= λ (z, rest).
    ok (Prim.prim (record (bare PrimType.int t_int) { int = z }) Prims.end, rest)
get_content one all PrimType.string buf = get_sized buf >>= λ (s, rest).
    ok (Prim.prim (record (bare PrimType.string t_string) { string = s }) Prims.end, rest)
get_content one all PrimType.sequence buf = get_sized buf >>= λ (seq, rest).
    all seq >>= λ args. ok (Prim.prim (bare PrimType.sequence t_list) args, rest)
get_content one all PrimType.nullary buf =
    get_byte buf >>= λ (op, rest). ok (Prim.prim (bare PrimType.nullary op) Prims.end, rest)
get_content one all PrimType.nullary_anno buf =
    get_byte buf >>= λ (op, rest). get_anno PrimType.nullary_anno op Prims.end rest
get_content one all PrimType.unary buf = get_byte buf >>= λ (op, r).
    one r >>= λ (p, rest). ok (Prim.prim (bare PrimType.unary op) (one_arg p), rest)
get_content one all PrimType.unary_anno buf = get_byte buf >>= λ (op, r).
    one r >>= λ (p, rest). get_anno PrimType.unary_anno op (one_arg p) rest
get_content one all PrimType.binary buf = get_byte buf >>= λ (op, r). one r >>= λ (p, r').
    one r' >>= λ (q, rest). ok (Prim.prim (bare PrimType.binary op) (two_args p q), rest)
get_content one all PrimType.binary_anno buf = get_byte buf >>= λ (op, r). one r >>= λ (p, r').
    one r' >>= λ (q, rest). get_anno PrimType.binary_anno op (two_args p q) rest
get_content one all PrimType.variadic_anno buf = get_byte buf >>= λ (op, r).
    get_unchecked r >>= λ (seq, rest).
    all seq >>= λ args. get_anno PrimType.variadic_anno op args rest
get_content one all PrimType.bytes buf = get_sized buf >>= λ (s, rest).
    ok (Prim.prim (record (bare PrimType.bytes t_bytes) { bytes = s }) Prims.end, rest)

-- The type of a tag.
unfoldable pub parse_tag : ℕ → Option PrimType
parse_tag tag =
    if tag == 0
    then some PrimType.int
    else if tag == 1
    then some PrimType.string
    else if tag == 2
    then some PrimType.sequence
    else if tag == 3
    then some PrimType.nullary
    else if tag == 4
    then some PrimType.nullary_anno
    else if tag == 5
    then some PrimType.unary
    else if tag == 6
    then some PrimType.unary_anno
    else if tag == 7
    then some PrimType.binary
    else if tag == 8
    then some PrimType.binary_anno
    else if tag == 9
    then some PrimType.variadic_anno
    else if tag == 10
    then some PrimType.bytes
    else none

-- The switch on the tag.
unfoldable pub get_tagged :
    (List ℕ → Read (Prim × List ℕ)) → (List ℕ → Read Prims) → ℕ → List ℕ → Read (Prim × List ℕ)
unfolding get_content parse_tag
get_tagged one all tag buf = elim (parse_tag tag) [
  | none ↦ Read.unknown_type
  | some type ↦ get_content one all type buf
]

-- `DecodeBuffer`, and the loops over the rest of a sub-buffer, on fuel: each level of nesting and
-- each argument takes one.
unfoldable mutual
  unfolding get_tagged

  pub decode_fuel : ℕ → List ℕ → Read (Prim × List ℕ)
  decode_fuel zero buf = Read.out_of_fuel
  decode_fuel (suc n) [] = Read.short_buffer
  decode_fuel (suc n) (tag ∷ buf) = get_tagged (decode_fuel n) (decode_all n) tag buf

  pub decode_all : ℕ → List ℕ → Read Prims
  decode_all zero buf = Read.out_of_fuel
  decode_all (suc n) [] = ok Prims.end
  decode_all (suc n) (b ∷ buf) =
      decode_fuel n (b ∷ buf) >>= λ (p, rest). decode_all n rest >>= λ ps. ok (Prims.arg p ps)

-- `DecodeBuffer`
unfoldable pub decode : List ℕ → Read (Prim × List ℕ)
unfolding decode_fuel
decode buf = decode_fuel (2 * length buf + 2) buf
