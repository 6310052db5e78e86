-- ===== src/Models/Op.antt =====
-- puller/models/op.go: an operation as the index stores it, as far as the totals of a block and
-- the income index read it. The other texts, the links to other rows and the floating-point fields are left out.
use tezos_index.Common.{ℕ, Bool, List}
use tezos_index.Common.Int64.{Int64}
use tezos_index.Chain.OpType.{OpType, OpStatus}

pub record Op : Type 0 where
  pub row_id : ℕ
  pub op_n : Int64
  pub op_c : Int64
  pub op_i : Int64
  pub type : OpType
  pub status : OpStatus
  pub is_success : Bool
  pub is_contract : Bool
  pub gas_limit : Int64
  pub gas_used : Int64
  pub storage_limit : Int64
  pub storage_size : Int64
  pub storage_paid : Int64
  pub volume : Int64
  pub fee : Int64
  pub reward : Int64
  pub deposit : Int64
  pub burned : Int64
  pub is_internal : Bool
  pub sender_id : ℕ
  pub op_data : List ℕ
