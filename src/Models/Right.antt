-- ===== src/Models/Right.antt =====
-- puller/models/right.go: the right to bake or to endorse a block.
use tezos_index.Common.{ℕ, Bool, false}
use tezos_index.Common.Int64.{Int64}

-- `Right`; the type is a number of chain/right.go.
pub record Right : Type 0 where
  pub row_id : ℕ
  pub type : ℕ
  pub height : Int64
  pub cycle : Int64
  pub priority : Int64
  pub account_id : ℕ
  pub is_lost : Bool
  pub is_stolen : Bool
  pub is_missed : Bool
  pub is_seed_required : Bool
  pub is_seed_revealed : Bool

-- `Right.Reset`
abbrev pub zero_right : Right
zero_right = record {
  row_id = 0;
  type = 0;
  height = 0;
  cycle = 0;
  priority = 0;
  account_id = 0;
  is_lost = false;
  is_stolen = false;
  is_missed = false;
  is_seed_required = false;
  is_seed_revealed = false;
}
