-- ===== src/Micheline/Codec/Expr.antt =====
-- Micheline expressions as the protocol defines them, and the nodes that stand for them
-- (micheline/primitives.go): which of the fields of a node an expression uses.
pub mod RoundTrip
pub mod Total
use tezos_index.Common.{ℕ, ◌<◌, ◌^◌, List, length}
use tezos_index.Common.Int.{ℤ}
use tezos_index.Micheline.Annots.{join, IsAnnots}
use tezos_index.Micheline.Tree.{PrimType, Prim, Prims}
use tezos_index.Micheline.Codec.{
  bare, t_int, t_string, t_list, t_bytes, one_arg, two_args, encode_args,
}

-- A number, a text, bytes, a sequence, or an operation with no, one, two or more arguments and
-- with or without annotations.
mutual
  pub data Expr : Type 0 where
    int : ℤ → Expr
    string bytes : List ℕ → Expr
    sequence : Exprs → Expr
    op0 : ℕ → Expr
    op0_anno : ℕ → List (List ℕ) → Expr
    op1 : ℕ → Expr → Expr
    op1_anno : ℕ → Expr → List (List ℕ) → Expr
    op2 : ℕ → Expr → Expr → Expr
    op2_anno : ℕ → Expr → Expr → List (List ℕ) → Expr
    opn : ℕ → Exprs → List (List ℕ) → Expr

  pub data Exprs : Type 0 where
    end : Exprs
    item : Expr → Exprs → Exprs

-- The node of an expression.
unfoldable mutual
  pub node : Expr → Prim
  node (Expr.int z) = Prim.prim (record (bare PrimType.int t_int) { int = z }) Prims.end
  node (Expr.string s) = Prim.prim (record (bare PrimType.string t_string) { string = s }) Prims.end
  node (Expr.bytes s) = Prim.prim (record (bare PrimType.bytes t_bytes) { bytes = s }) Prims.end
  node (Expr.sequence es) = Prim.prim (bare PrimType.sequence t_list) (nodes es)
  node (Expr.op0 op) = Prim.prim (bare PrimType.nullary op) Prims.end
  node (Expr.op0_anno op ws) =
      Prim.prim (record (bare PrimType.nullary_anno op) { anno = ws }) Prims.end
  node (Expr.op1 op e) = Prim.prim (bare PrimType.unary op) (one_arg (node e))
  node (Expr.op1_anno op e ws) =
      Prim.prim (record (bare PrimType.unary_anno op) { anno = ws }) (one_arg (node e))
  node (Expr.op2 op e f) = Prim.prim (bare PrimType.binary op) (two_args (node e) (node f))
  node (Expr.op2_anno op e f ws) =
      Prim.prim (record (bare PrimType.binary_anno op) { anno = ws }) (two_args (node e) (node f))
  node (Expr.opn op es ws) =
      Prim.prim (record (bare PrimType.variadic_anno op) { anno = ws }) (nodes es)

  pub nodes : Exprs → Prims
  nodes Exprs.end = Prims.end
  nodes (Exprs.item e es) = Prims.arg (node e) (nodes es)

-- What a length of four bytes can tell, and annotations that are at least one and have no space.
abbrev pub IsShort : List ℕ → Type 0
IsShort s = length s < 2 ^ 32

abbrev pub IsAnno : List (List ℕ) → Type 0
IsAnno ws = IsAnnots ws × IsShort (join ws)

unfoldable mutual
  pub Fits : Expr → Type 0
  Fits (Expr.int z) = Unit {0}
  Fits (Expr.string s) = IsShort s
  Fits (Expr.bytes s) = IsShort s
  Fits (Expr.sequence es) = FitsAll es × IsShort (encode_args (nodes es))
  Fits (Expr.op0 op) = Unit {0}
  Fits (Expr.op0_anno op ws) = IsAnno ws
  Fits (Expr.op1 op e) = Fits e
  Fits (Expr.op1_anno op e ws) = Fits e × IsAnno ws
  Fits (Expr.op2 op e f) = Fits e × Fits f
  Fits (Expr.op2_anno op e f ws) = Fits e × Fits f × IsAnno ws
  Fits (Expr.opn op es ws) = FitsAll es × IsShort (encode_args (nodes es)) × IsAnno ws

  pub FitsAll : Exprs → Type 0
  FitsAll Exprs.end = Unit {0}
  FitsAll (Exprs.item e es) = Fits e × FitsAll es
