-- ===== src/Micheline/Tree.antt =====
-- micheline/primitives.go: the nodes of Micheline expressions, and the walk of utils/utils.go to the
-- balance in the storage of a vesting contract.
use tezos_index.Common.{
  ℕ, zero, suc, Option, none, some, List, [], ◌∷◌, Bool, true, false, if◌then◌else◌,
}
use tezos_index.Common.Int64.{Int64}
use tezos_index.Common.Int.{ℤ, to_int64}

-- `PrimType`
pub data PrimType : Type 0 where
  int string sequence nullary nullary_anno unary unary_anno binary binary_anno : PrimType
  variadic_anno bytes : PrimType

-- The fields of `Prim` but its arguments. Texts and bytes are lists of bytes, an op code is its
-- byte; the number is zero where the pointer is nil, which is so only on nodes of another type.
pub record Head : Type 0 where
  pub type : PrimType
  pub op_code : ℕ
  pub anno : List (List ℕ)
  pub int : ℤ
  pub string : List ℕ
  pub bytes : List ℕ
  pub was_packed : Bool

-- `Prim`
mutual
  pub data Prim : Type 0 where
    prim : Head → Prims → Prim

  pub data Prims : Type 0 where
    end : Prims
    arg : Prim → Prims → Prims

-- `prim.Args[v]`, if there is one.
unfoldable pub get_arg? : Prims → ℕ → Option Prim
get_arg? Prims.end i = none
get_arg? (Prims.arg p ps) zero = some p
get_arg? (Prims.arg p ps) (suc i) = get_arg? ps i

unfoldable pub walk : List ℕ → Prim → Option Prim
unfolding get_arg?
walk [] p = some p
walk (v ∷ vs) (Prim.prim h args) = elim (get_arg? args v) [ none ↦ none | some p ↦ walk vs p ]

abbrev is_int : PrimType → Bool
is_int PrimType.int = true
is_int _ = false

-- `prim.Int.Int64()` of a node that is a number.
abbrev int_value : Prim → Option Int64
int_value (Prim.prim h args) = if is_int h.type then some (to_int64 h.int) else none

-- `vestingContractBalancePath`
abbrev vesting_contract_balance_path : List ℕ
vesting_contract_balance_path = 1 ∷ 0 ∷ 0 ∷ 0 ∷ []

-- `GetVestingBalance` of utils/utils.go; `none` is its error.
unfoldable pub get_vesting_balance : Option Prim → Option Int64
unfolding walk
get_vesting_balance none = some 0
get_vesting_balance (some p) = elim (walk vesting_contract_balance_path p) [
  | none ↦ none
  | some q ↦ int_value q
]
