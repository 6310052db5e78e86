-- ===== src/Micheline/Codec/Expr/RoundTrip.antt =====
-- micheline/primitives.go: reading a node that was written.
use mathlib.Core.List.{append_assoc, append-nil}
use tezos_index.Common.{
  ℕ, suc, zero, ◌≡◌, refl, ap, ◌≤◌, ◌<◌, ◌*◌, ◌+◌, ◌^◌, ◌/◌, ◌%◌, arith, List, [], ◌∷◌, ◌++◌,
  length, length-append,
}
use tezos_index.Common.{
  take, drop, take-length-append, drop-length-append, ltb, false, if◌then◌else◌,
}
use tezos_index.Micheline.Wire.{Read, ok, ◌>>=◌, put_sized, get_sized, put_uint32, get_uint32}
use tezos_index.Micheline.Zarith.RoundTrip.{get_z-put_z}
use tezos_index.Micheline.Annots.{join, split-join}
use tezos_index.Micheline.Tree.{PrimType, Prim, Prims}
use tezos_index.Micheline.Codec.{
  encode, encode_args, decode_fuel, decode_all, decode, bare, put_anno, get_anno, put_content,
  get_tagged, one_arg, two_args,
}
use tezos_index.Micheline.Codec.Expr.{Expr, Exprs, node, nodes, Fits, FitsAll, IsShort, IsAnno}

get_uint32-put_uint32 :
    (n : ℕ) (rest : List ℕ) → n < 2 ^ 32 → get_uint32 (put_uint32 n ++ rest) ≡ ok (n, rest)
unfolding get_uint32 put_uint32
get_uint32-put_uint32 n rest h = ground arith

-- A slice of the length that was written.
slice :
    (n : ℕ) (s rest : List ℕ)
    → n ≡ length s
    → (take n (s ++ rest) ≡ s) × (drop n (s ++ rest) ≡ rest) × (ltb (length (s ++ rest)) n ≡ false)
slice n s rest e =
    rw e
      (take-length-append s rest, drop-length-append s rest, ground (arith, length-append s rest))

checked :
    (n : ℕ) (s rest : List ℕ)
    → n ≡ length s
    → (if◌then◌else◌ {A = Read (List ℕ × List ℕ)}
        (ltb (length (s ++ rest)) n)
        Read.short_buffer
        (ok (take n (s ++ rest), drop n (s ++ rest))))
      ≡ ok (s, rest)
checked n s rest e = let (t, d, b) = slice n s rest e in rw (b, t, d)

pub get_sized-put_sized :
    (s rest : List ℕ) → IsShort s → get_sized (put_sized s ++ rest) ≡ ok (s, rest)
unfolding get_sized put_sized
get_sized-put_sized s rest h = checked _ s rest (omega arith)

-- The number that the four bytes of a length give.
abbrev written : ℕ → ℕ
written n =
    n / 2 ^ 24 % 256 * 2 ^ 24 + n / 2 ^ 16 % 256 * 2 ^ 16 + n / 2 ^ 8 % 256 * 2 ^ 8 + n % 256

sliced_take : (s rest : List ℕ) → IsShort s → take (written (length s)) (s ++ rest) ≡ s
sliced_take s rest h = (slice (written (length s)) s rest (omega arith)).0

sliced_drop : (s rest : List ℕ) → IsShort s → drop (written (length s)) (s ++ rest) ≡ rest
sliced_drop s rest h = (slice (written (length s)) s rest (omega arith)).1

get_anno-put_anno :
    (type : PrimType) (op : ℕ) (args : Prims) (ws : List (List ℕ)) (rest : List ℕ)
    → IsAnno ws
    → get_anno type op args (put_anno ws ++ rest)
      ≡ ok (Prim.prim (record (bare type op) { anno = ws }) args, rest)
unfolding get_anno put_anno
get_anno-put_anno type op args ws rest h = rw (get_sized-put_sized (join ws) rest h.1) (
    ap (λ (l : List (List ℕ)). ok (Prim.prim (record (bare type op) { anno = l }) args, rest))
      (split-join ws h.0))

encode_pos : (p : Prim) → 0 < length (encode p)
unfolding encode
encode_pos (Prim.prim h args) = omega arith

-- The bytes of one and of two arguments in front of what follows.
one_arg-append : (p : Prim) (rest : List ℕ) → encode_args (one_arg p) ++ rest ≡ encode p ++ rest
unfolding encode_args
one_arg-append p rest = rw append-nil

two_args-append :
    (p q : Prim) (rest : List ℕ)
    → encode_args (two_args p q) ++ rest ≡ encode p ++ (encode q ++ rest)
unfolding encode_args
two_args-append p q rest = simp (append-nil, append_assoc)

length-two_args :
    (p q : Prim) → length (encode_args (two_args p q)) ≡ length (encode p) + length (encode q)
unfolding encode_args
length-two_args p q = simp (append-nil, length-append)

length-one_arg : (p : Prim) → length (encode_args (one_arg p)) ≡ length (encode p)
unfolding encode_args
length-one_arg p = simp append-nil

decode_all-append :
    (n : ℕ) (b c : List ℕ)
    → 0 < length b
    → decode_all (suc n) (b ++ c)
      ≡ (decode_fuel n (b ++ c) >>= λ (p, rest). decode_all n rest >>= λ ps. ok (Prims.arg p ps))
unfolding decode_all
decode_all-append n [] c h = absurd (omega arith)
decode_all-append n (x ∷ b) c h = refl

mutual
  unfolding node Fits encode decode_fuel put_content get_tagged

  decode-encode :
      (e : Expr) (n : ℕ) (rest : List ℕ)
      → Fits e
      → 2 * length (encode (node e)) ≤ n
      → decode_fuel n (encode (node e) ++ rest) ≡ ok (node e, rest)
  decode-encode e zero rest h k = absurd (omega (arith, encode_pos (node e)))
  decode-encode (Expr.int z) (suc n) rest h k = rw (get_z-put_z z rest)
  decode-encode (Expr.string s) (suc n) rest h k = rw (get_sized-put_sized s rest h)
  decode-encode (Expr.bytes s) (suc n) rest h k = rw (get_sized-put_sized s rest h)
  decode-encode (Expr.sequence es) (suc n) rest h k =
      rw (get_sized-put_sized (encode_args (nodes es)) rest h.1)
        (rw (decode_all-encode_args es n h.0 (omega arith)))
  decode-encode (Expr.op0 op) (suc n) rest h k = refl
  decode-encode (Expr.op0_anno op ws) (suc n) rest h k = get_anno-put_anno _ op _ ws rest h
  decode-encode (Expr.op1 op e) (suc n) rest h k =
      rw (one_arg-append (node e) rest)
        (rw (decode-encode e n rest h (omega (arith, length-one_arg (node e)))))
  decode-encode (Expr.op1_anno op e ws) (suc n) rest h k =
      rw (append_assoc (encode_args (one_arg (node e))) (put_anno ws) rest) (
        rw (one_arg-append (node e) (put_anno ws ++ rest)) (
          rw
            (decode-encode e n (put_anno ws ++ rest) h.0 (
              omega (
                arith,
                length-append (encode_args (one_arg (node e))) (put_anno ws),
                length-one_arg (node e),
              )))
            (get_anno-put_anno _ op _ ws rest h.1)))
  decode-encode (Expr.op2 op e f) (suc n) rest h k = rw (two_args-append (node e) (node f) rest) (
      rw
        (decode-encode e n (encode (node f) ++ rest) h.0
          (omega (arith, length-two_args (node e) (node f))))
        (rw (decode-encode f n rest h.1 (omega (arith, length-two_args (node e) (node f))))))
  decode-encode (Expr.op2_anno op e f ws) (suc n) rest h k =
      rw (append_assoc (encode_args (two_args (node e) (node f))) (put_anno ws) rest) (
        rw (two_args-append (node e) (node f) (put_anno ws ++ rest)) (
          rw
            (decode-encode e n (encode (node f) ++ (put_anno ws ++ rest)) h.0 (
              omega (
                arith,
                length-append (encode_args (two_args (node e) (node f))) (put_anno ws),
                length-two_args (node e) (node f),
              )))
            (rw
              (decode-encode f n (put_anno ws ++ rest) h.1 (
                omega (
                  arith,
                  length-append (encode_args (two_args (node e) (node f))) (put_anno ws),
                  length-two_args (node e) (node f),
                )))
              (get_anno-put_anno _ op _ ws rest h.2))))
  decode-encode (Expr.opn op es ws) (suc n) rest h k =
      rw (append_assoc (encode_args (nodes es)) (put_anno ws) rest) (
        rw
          (
            sliced_take (encode_args (nodes es)) (put_anno ws ++ rest) h.1,
            sliced_drop (encode_args (nodes es)) (put_anno ws ++ rest) h.1,
          )
          (rw
            (decode_all-encode_args es n h.0 (
              omega (
                arith,
                length-append (put_sized (encode_args (nodes es))) (put_anno ws),
                length-append (put_uint32 (length (encode_args (nodes es))))
                    (encode_args (nodes es)),
              )))
            (get_anno-put_anno _ op _ ws rest h.2)))

  decode_all-encode_args :
      (es : Exprs) (n : ℕ)
      → FitsAll es
      → 2 * length (encode_args (nodes es)) + 1 ≤ n
      → decode_all n (encode_args (nodes es)) ≡ ok (nodes es)
  decode_all-encode_args es zero h k = absurd (omega arith)
  decode_all-encode_args Exprs.end (suc n) h k = refl
  decode_all-encode_args (Exprs.item e es) (suc n) h k =
      rw (decode_all-append n (encode (node e)) (encode_args (nodes es)) (encode_pos (node e))) (
        rw
          (decode-encode e n (encode_args (nodes es)) h.0
            (omega (arith, length-append (encode (node e)) (encode_args (nodes es)))))
          (rw (
            decode_all-encode_args es n h.1 (
              omega (
                arith,
                length-append (encode (node e)) (encode_args (nodes es)),
                encode_pos (node e),
              )))))

-- A node that stands for an expression is read back from its bytes, whatever follows them. The
-- conditions: texts, bytes, annotations and argument lists are shorter than 2 ^ 32 bytes, and an
-- operation with annotations has at least one, none of which has a space.
pub decode-encode-node :
    (e : Expr) (rest : List ℕ) → Fits e → decode (encode (node e) ++ rest) ≡ ok (node e, rest)
unfolding decode
decode-encode-node e rest h =
    decode-encode e (2 * length (encode (node e) ++ rest) + 2) rest h
      (omega (arith, length-append (encode (node e)) rest))
