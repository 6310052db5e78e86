-- ===== src/Chain/OpType/Texts.antt =====
-- chain/op.go: printing and reading the texts and the tags of operation types.
use Prim.Native.String.{String}
use tezos_index.Common.{◌≡◌, ◌≢◌, ◌↔◌, refl, arith, Option}
use tezos_index.Common.Texts.{read_table_iff}
use tezos_index.Chain.Params.{Params}
use tezos_index.Chain.OpType.{OpType, OpStatus, parse_op_type, op_type_string, op_tag}
use tezos_index.Chain.OpType.{parse_op_tag, parse_op_status, op_status_string}
use tezos_index.Chain.OpType.{op_type_table, op_status_table}

parse_op_type-op_type_string : (t : OpType) → parse_op_type (op_type_string t) ≡ t
unfolding parse_op_type op_type_string
parse_op_type-op_type_string OpType.bake = refl
parse_op_type-op_type_string t = refl

parse_op_status-op_status_string : (t : OpStatus) → parse_op_status (op_status_string t) ≡ t
unfolding parse_op_status op_status_string
parse_op_status-op_status_string OpStatus.invalid = refl
parse_op_status-op_status_string t = refl

-- A text is read as a valid operation type, or as a valid status, exactly where it is the text
-- that the type or the status prints as.
pub parse_op_type_iff :
    (s : String)
    → ((t : OpType) → t ≢ OpType.invalid → (parse_op_type s ≡ t) ↔ (s ≡ op_type_string t))
      × ((v : OpStatus) → v ≢ OpStatus.invalid → (parse_op_status s ≡ v) ↔ (s ≡ op_status_string v))
unfolding parse_op_type op_type_string parse_op_status op_status_string
parse_op_type_iff s = (
  λ t valid.
      read_table_iff op_type_string op_type_table OpType.invalid s t (ground arith)
        (parse_op_type-op_type_string t) valid,
  λ v valid.
      read_table_iff op_status_string op_status_table OpStatus.invalid s v (ground arith)
        (parse_op_status-op_status_string v) valid,
)

-- The tag of every operation that the protocol has is read back as that operation, before and
-- after the renumbering of Babylon, whatever the parameters.
pub parse_op_tag-op_tag :
    (t : OpType) (p : Option Params)
    → op_tag t p ≢ 255
    → t ≢ OpType.invalid
    → t ≢ OpType.endorsement_with_slot
    → parse_op_tag (op_tag t p) ≡ t
unfolding parse_op_tag op_tag
parse_op_tag-op_tag OpType.bake p n v w = ground arith
parse_op_tag-op_tag t p n v w = ground arith
