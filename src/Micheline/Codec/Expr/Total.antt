-- ===== src/Micheline/Codec/Expr/Total.antt =====
-- micheline/primitives.go: `DecodeBuffer` on any input, well formed or not.
use tezos_index.Common.{
  ℕ, suc, zero, ◌≡◌, ◌≢◌, refl, ap, ◌≤◌, ◌<◌, ◌*◌, ◌+◌, ◌%◌, ◌^◌, leb, arith, List, [], ◌∷◌, length,
}
use tezos_index.Common.{
  take, drop, length-take, length-drop, ltb, Bool, Bool-cases, inl, inr, true, false, Option, none,
  some, if◌then◌else◌, subst,
}
use tezos_index.Micheline.Wire.{Read, ok, ◌>>=◌, get_sized, get_unchecked, get_byte, get_uint32}
use tezos_index.Micheline.Zarith.{get_groups, get_z}
use tezos_index.Micheline.Annots.{split}
use tezos_index.Micheline.Tree.{PrimType, Prim, Prims}
use tezos_index.Micheline.Codec.{
  decode_fuel, decode_all, decode, get_anno, get_content, get_tagged, bare, one_arg, two_args,
  t_list, parse_tag,
}
use tezos_index.Micheline.Codec.Expr.{Expr, Exprs, node, nodes}

-- A read that does not give up, and whose value has a property.
abbrev pub Post : {A : Type 0} → (A → Type 0) → Read A → Type 0
Post P (ok a) = P a
Post P Read.out_of_fuel = ⊥
Post P Read.short_buffer = Unit {0}
Post P Read.unknown_type = Unit {0}
Post P Read.panic = Unit {0}

Post-bind :
    {A B : Type 0} (Q : A → Type 0) (P : B → Type 0) (m : Read A) (f : A → Read B)
    → Post Q m
    → ((a : A) → Q a → Post P (f a))
    → Post P (m >>= f)
Post-bind Q P (ok a) f h k = k a h
Post-bind Q P Read.out_of_fuel f h k = absurd h
Post-bind Q P Read.short_buffer f h k = tt
Post-bind Q P Read.unknown_type f h k = tt
Post-bind Q P Read.panic f h k = tt

-- The rest of the buffer is no longer than `k`.
abbrev Leaves : {A : Type 0} → ℕ → A × List ℕ → Type 0
Leaves k (a, rest) = length rest ≤ k

-- A slice and the rest, both no longer than `k`.
abbrev Slices : ℕ → List ℕ × List ℕ → Type 0
Slices k (s, rest) = (length s ≤ k) × (length rest ≤ k)

get_uint32-Post : (buf : List ℕ) → Post (Leaves (length buf)) (get_uint32 buf)
unfolding get_uint32
get_uint32-Post [] = tt
get_uint32-Post (a ∷ []) = tt
get_uint32-Post (a ∷ b ∷ []) = tt
get_uint32-Post (a ∷ b ∷ c ∷ []) = tt
get_uint32-Post (a ∷ b ∷ c ∷ d ∷ rest) = omega arith

slices : (k n : ℕ) (s : List ℕ) → length s ≤ k → Slices k (take n s, drop n s)
slices k n s h = (omega (arith, length-take n s), omega (arith, length-drop n s))

get_sized-Post : (buf : List ℕ) → Post (Slices (length buf)) (get_sized buf)
unfolding get_sized
get_sized-Post buf =
    Post-bind (Leaves (length buf)) (Slices (length buf)) (get_uint32 buf) _ (get_uint32-Post buf)
      (λ (size, rest) h. elim (Bool-cases (ltb (length rest) size)) [
        | inl e ↦ rw e tt
        | inr e ↦ rw e (slices (length buf) size rest h)
      ])

get_unchecked-Post : (buf : List ℕ) → Post (Slices (length buf)) (get_unchecked buf)
unfolding get_unchecked
get_unchecked-Post buf =
    Post-bind (Leaves (length buf)) (Slices (length buf)) (get_uint32 buf) _ (get_uint32-Post buf)
      (λ (size, rest) h. slices (length buf) size rest h)

get_byte-Post : (buf : List ℕ) → Post (Leaves (length buf)) (get_byte buf)
unfolding get_byte
get_byte-Post [] = tt
get_byte-Post (b ∷ rest) = omega arith

Post-weaken :
    {A : Type 0} (Q P : A → Type 0) (m : Read A) → Post Q m → ((a : A) → Q a → P a) → Post P m
Post-weaken Q P (ok a) h k = k a h
Post-weaken Q P Read.out_of_fuel h k = h
Post-weaken Q P Read.short_buffer h k = tt
Post-weaken Q P Read.unknown_type h k = tt
Post-weaken Q P Read.panic h k = tt

get_groups-Post : (x s : ℕ) (buf : List ℕ) → Post (Leaves (length buf)) (get_groups x s buf)
unfolding get_groups
get_groups-Post x s [] = tt
get_groups-Post x s (b ∷ buf) = elim (Bool-cases (ltb b 128)) [
  | inl e ↦ rw e (omega arith)
  | inr e ↦ rw e (
      Post-weaken (Leaves (length buf)) (Leaves (suc (length buf))) _
        (get_groups-Post (x + b % 128 * 2 ^ s) (s + 7) buf) (λ (y, rest) h. omega arith))
]

groups_or_byte :
    (more : Bool) (x : ℕ) (buf : List ℕ)
    → Post (Leaves (length buf)) (if more then get_groups x 6 buf else ok (x, buf))
groups_or_byte true x buf = get_groups-Post x 6 buf
groups_or_byte false x buf = omega arith

get_z-Post : (buf : List ℕ) → Post (Leaves (length buf)) (get_z buf)
unfolding get_z
get_z-Post [] = tt
get_z-Post (b ∷ buf) =
    Post-bind (Leaves (length buf)) (Leaves (suc (length buf)))
      (if leb 128 b then get_groups (b % 64) 6 buf else ok (b % 64, buf)) _
      (groups_or_byte (leb 128 b) (b % 64) buf) (λ (x, rest) h. omega arith)

-- The node of some expression, with a rest no longer than `k`.
abbrev pub IsNode : Prim → Type 0
IsNode p = (e : Expr) × (node e ≡ p)

abbrev IsNodes : Prims → Type 0
IsNodes ps = (es : Exprs) × (nodes es ≡ ps)

abbrev pub Reads : ℕ → Prim × List ℕ → Type 0
Reads k (p, rest) = IsNode p × (length rest ≤ k)

module _ (k : ℕ) where
  sized : (buf : List ℕ) → length buf ≤ k → Post (Slices k) (get_sized buf)
  sized buf h =
      Post-weaken (Slices (length buf)) (Slices k) (get_sized buf) (get_sized-Post buf)
        (λ (s, rest) p. (omega arith, omega arith))

  unchecked : (buf : List ℕ) → length buf ≤ k → Post (Slices k) (get_unchecked buf)
  unchecked buf h =
      Post-weaken (Slices (length buf)) (Slices k) (get_unchecked buf) (get_unchecked-Post buf)
        (λ (s, rest) p. (omega arith, omega arith))

  byte : (buf : List ℕ) → length buf ≤ k → Post (Leaves k) (get_byte buf)
  byte buf h =
      Post-weaken (Leaves (length buf)) (Leaves k) (get_byte buf) (get_byte-Post buf)
        (λ (b, rest) p. omega arith)

  get_anno-Post :
      (type : PrimType) (op : ℕ) (args : Prims) (buf : List ℕ)
      → length buf ≤ k
      → ((ws : List (List ℕ)) → IsNode (Prim.prim (record (bare type op) { anno = ws }) args))
      → Post (Reads k) (get_anno type op args buf)
  unfolding get_anno
  get_anno-Post type op args buf h shape =
      Post-bind (Slices k) (Reads k) (get_sized buf) _ (sized buf h)
        (λ (anno, rest) p. (shape (split anno), p.1))

  module _ (one : List ℕ → Read (Prim × List ℕ)) (all : List ℕ → Read Prims)
      (reads : (b : List ℕ) → length b ≤ k → Post (Reads k) (one b))
      (reads_all : (b : List ℕ) → length b ≤ k → Post IsNodes (all b)) where
    get_content-Post :
        (type : PrimType) (buf : List ℕ)
        → length buf ≤ k
        → Post (Reads k) (get_content one all type buf)
    unfolding get_content node
    get_content-Post PrimType.int buf h =
        Post-bind (Leaves (length buf)) (Reads k) (get_z buf) _ (get_z-Post buf)
          (λ (z, rest) p. ((Expr.int z, refl), omega arith))
    get_content-Post PrimType.string buf h =
        Post-bind (Slices k) (Reads k) (get_sized buf) _ (sized buf h)
          (λ (s, rest) p. ((Expr.string s, refl), p.1))
    get_content-Post PrimType.bytes buf h =
        Post-bind (Slices k) (Reads k) (get_sized buf) _ (sized buf h)
          (λ (s, rest) p. ((Expr.bytes s, refl), p.1))
    get_content-Post PrimType.sequence buf h =
        Post-bind (Slices k) (Reads k) (get_sized buf) _ (sized buf h) (λ (s, rest) p.
          Post-bind IsNodes (Reads k) (all s) _ (reads_all s p.0) (λ args (es, e). (
            (Expr.sequence es, ap (λ (ps : Prims). Prim.prim (bare PrimType.sequence t_list) ps) e),
            p.1,
          )))
    get_content-Post PrimType.nullary buf h =
        Post-bind (Leaves k) (Reads k) (get_byte buf) _ (byte buf h)
          (λ (op, rest) p. ((Expr.op0 op, refl), p))
    get_content-Post PrimType.nullary_anno buf h =
        Post-bind (Leaves k) (Reads k) (get_byte buf) _ (byte buf h) (λ (op, rest) p.
          get_anno-Post PrimType.nullary_anno op Prims.end rest p
            (λ ws. (Expr.op0_anno op ws, refl)))
    get_content-Post PrimType.unary buf h =
        Post-bind (Leaves k) (Reads k) (get_byte buf) _ (byte buf h) (λ (op, r) p.
          Post-bind (Reads k) (Reads k) (one r) _ (reads r p) (λ (a, rest) q. (
            (
              Expr.op1 op q.0.0,
              ap (λ (x : Prim). Prim.prim (bare PrimType.unary op) (one_arg x)) q.0.1,
            ),
            q.1,
          )))
    get_content-Post PrimType.unary_anno buf h =
        Post-bind (Leaves k) (Reads k) (get_byte buf) _ (byte buf h) (λ (op, r) p.
          Post-bind (Reads k) (Reads k) (one r) _ (reads r p) (λ (a, rest) q.
            get_anno-Post PrimType.unary_anno op (one_arg a) rest q.1 (λ ws. (
              Expr.op1_anno op q.0.0 ws,
              ap
                  (λ (x : Prim).
                    Prim.prim (record (bare PrimType.unary_anno op) { anno = ws }) (one_arg x))
                  q.0.1,
            ))))
    get_content-Post PrimType.binary buf h =
        Post-bind (Leaves k) (Reads k) (get_byte buf) _ (byte buf h) (λ (op, r) p.
          Post-bind (Reads k) (Reads k) (one r) _ (reads r p) (λ (a, r') q.
            Post-bind (Reads k) (Reads k) (one r') _ (reads r' q.1)
              (λ (b, rest) t. ((Expr.op2 op q.0.0 t.0.0, simp (q.0.1, t.0.1)), t.1))))
    get_content-Post PrimType.binary_anno buf h =
        Post-bind (Leaves k) (Reads k) (get_byte buf) _ (byte buf h) (λ (op, r) p.
          Post-bind (Reads k) (Reads k) (one r) _ (reads r p) (λ (a, r') q.
            Post-bind (Reads k) (Reads k) (one r') _ (reads r' q.1) (λ (b, rest) t.
              get_anno-Post PrimType.binary_anno op (two_args a b) rest t.1
                (λ ws. (Expr.op2_anno op q.0.0 t.0.0 ws, simp (q.0.1, t.0.1))))))
    get_content-Post PrimType.variadic_anno buf h =
        Post-bind (Leaves k) (Reads k) (get_byte buf) _ (byte buf h) (λ (op, r) p.
          Post-bind (Slices k) (Reads k) (get_unchecked r) _ (unchecked r p) (λ (s, rest) q.
            Post-bind IsNodes (Reads k) (all s) _ (reads_all s q.0) (λ args (es, e).
              get_anno-Post PrimType.variadic_anno op args rest q.1 (λ ws. (
                Expr.opn op es ws,
                ap
                    (λ (ps : Prims).
                      Prim.prim (record (bare PrimType.variadic_anno op) { anno = ws }) ps)
                    e,
              )))))

    get_tagged-Post :
        (tag : ℕ) (buf : List ℕ) → length buf ≤ k → Post (Reads k) (get_tagged one all tag buf)
    unfolding get_tagged
    get_tagged-Post tag buf h =
        elim (parse_tag tag)
          as (λ (t : Option PrimType).
            Post (Reads k)
              (elim t [ none ↦ Read.unknown_type | some type ↦ get_content one all type buf ])) [
                | none ↦ tt
                | some type ↦ get_content-Post type buf h
              ]

-- At least one byte is read.
abbrev Consumes : ℕ → Prim × List ℕ → Type 0
Consumes k (p, rest) = IsNode p × (length rest < k)

mutual
  unfolding decode_fuel nodes

  decode_fuel-Post :
      (n : ℕ) (buf : List ℕ)
      → 2 * length buf + 2 ≤ n
      → Post (Consumes (length buf)) (decode_fuel n buf)
  decode_fuel-Post zero buf h = absurd (omega arith)
  decode_fuel-Post (suc n) [] h = tt
  decode_fuel-Post (suc n) (tag ∷ buf) h =
      Post-weaken (Reads (length buf)) (Consumes (suc (length buf)))
        (get_tagged (decode_fuel n) (decode_all n) tag buf)
        (get_tagged-Post (length buf) (decode_fuel n) (decode_all n)
          (λ b p.
            Post-weaken (Consumes (length b)) (Reads (length buf)) (decode_fuel n b)
              (decode_fuel-Post n b (omega arith)) (λ (q, rest) r. (r.0, omega arith)))
          (λ b p. decode_all-Post n b (omega arith)) tag buf (omega arith))
        (λ (q, rest) r. (r.0, omega arith))

  decode_all-Post :
      (n : ℕ) (buf : List ℕ) → 2 * length buf + 3 ≤ n → Post IsNodes (decode_all n buf)
  decode_all-Post zero buf h = absurd (omega arith)
  decode_all-Post (suc n) [] h = (Exprs.end, refl)
  decode_all-Post (suc n) (b ∷ buf) h =
      Post-bind (Consumes (suc (length buf))) IsNodes (decode_fuel n (b ∷ buf)) _
        (decode_fuel-Post n (b ∷ buf) (omega arith))
        (λ (p, rest) q.
          Post-bind IsNodes IsNodes (decode_all n rest) _ (decode_all-Post n rest (omega arith))
            (λ ps (es, e). (Exprs.item q.0.0 es, simp (q.0.1, e))))

-- Reading always ends: on any buffer at all, it does not run out of fuel, and where it gives a node,
-- that is the node of a Micheline expression, behind which fewer bytes are left than there were.
pub decode_total :
    (buf : List ℕ)
    → (decode buf ≢ Read.out_of_fuel)
      × ((p : Prim) (rest : List ℕ)
          → decode buf ≡ ok (p, rest)
          → IsNode p × (length rest < length buf))
unfolding decode
decode_total buf =
    let post = decode_fuel-Post (2 * length buf + 2) buf (omega arith) in
    (
      λ e. subst (Post (Consumes (length buf))) e post,
      λ p rest e. subst (Post (Consumes (length buf))) e post,
    )
