-- ===== src/Chain/Params.antt =====
-- chain/params.go: the protocol parameters, and the cycles and voting periods that heights fall in.
-- A duration is its int64 of nanoseconds; hashes are lists of bytes.
pub mod Heights
pub mod Snapshots
use Prim.Native.String.{String}
use tezos_index.Common.{ℕ, ◌^◌, ◌-◌, Bool, true, false, ◌&&◌, ◌||◌, not, List, []}
use tezos_index.Common.{Option, none, some, ◌==◌, if◌then◌else◌}
use tezos_index.Common.Int64.{Int64, add64, sub64, mul64, div64, rem64, lt64}

pub record Params : Type 0 where
  pub name : String
  pub network : String
  pub symbol : String
  pub deployment : Int64
  pub version : Int64
  pub chain_id : List ℕ
  pub protocol : List ℕ
  pub start_height : Int64
  pub end_height : Int64
  pub decimals : Int64
  pub token : Int64
  pub no_reward_cycles : Int64
  pub security_deposit_ramp_up_cycles : Int64
  pub preserved_cycles : Int64
  pub blocks_per_cycle : Int64
  pub blocks_per_commitment : Int64
  pub blocks_per_roll_snapshot : Int64
  pub blocks_per_voting_period : Int64
  pub time_between_blocks : Int64 × Int64
  pub endorsers_per_block : Int64
  pub hard_gas_limit_per_operation : Int64
  pub hard_gas_limit_per_block : Int64
  pub proof_of_work_threshold : Int64
  pub proof_of_work_nonce_size : Int64
  pub tokens_per_roll : Int64
  pub michelson_maximum_type_size : Int64
  pub seed_nonce_revelation_tip : Int64
  pub origination_size : Int64
  pub origination_burn : Int64
  pub block_security_deposit : Int64
  pub endorsement_security_deposit : Int64
  pub block_reward : Int64
  pub endorsement_reward : Int64
  pub block_reward_v6 : Int64 × Int64
  pub endorsement_reward_v6 : Int64 × Int64
  pub cost_per_byte : Int64
  pub hard_storage_limit_per_operation : Int64
  pub test_chain_duration : Int64
  pub max_operation_data_length : Int64
  pub max_proposals_per_delegate : Int64
  pub max_revelations_per_block : Int64
  pub nonce_length : Int64
  pub min_proposal_quorum : Int64
  pub quorum_min : Int64
  pub quorum_max : Int64
  pub max_anon_ops_per_block : Int64
  pub invoices : List (String × Int64)
  pub silent_spendable : Bool
  pub has_origination_bug : Bool
  pub reactivate_by_tx : Bool
  pub operation_tags_version : Int64
  pub num_voting_periods : Int64
  pub start_block_offset : Int64

-- `NewParams`; -1 is the pattern of all ones.
abbrev pub minus_one : Int64
minus_one = 2 ^ 64 - 1

unfoldable pub new_params : Params
new_params = record {
  name = "Tezos";
  network = "";
  symbol = "XTZ";
  deployment = 0;
  version = 0;
  chain_id = [];
  protocol = [];
  start_height = minus_one;
  end_height = minus_one;
  decimals = 6;
  token = 1000000;
  no_reward_cycles = 0;
  security_deposit_ramp_up_cycles = 0;
  preserved_cycles = 0;
  blocks_per_cycle = 0;
  blocks_per_commitment = 0;
  blocks_per_roll_snapshot = 0;
  blocks_per_voting_period = 0;
  time_between_blocks = (0, 0);
  endorsers_per_block = 0;
  hard_gas_limit_per_operation = 0;
  hard_gas_limit_per_block = 0;
  proof_of_work_threshold = 0;
  proof_of_work_nonce_size = 0;
  tokens_per_roll = 0;
  michelson_maximum_type_size = 0;
  seed_nonce_revelation_tip = 0;
  origination_size = 0;
  origination_burn = 0;
  block_security_deposit = 0;
  endorsement_security_deposit = 0;
  block_reward = 0;
  endorsement_reward = 0;
  block_reward_v6 = (0, 0);
  endorsement_reward_v6 = (0, 0);
  cost_per_byte = 0;
  hard_storage_limit_per_operation = 0;
  test_chain_duration = 0;
  max_operation_data_length = 0;
  max_proposals_per_delegate = 0;
  max_revelations_per_block = 0;
  nonce_length = 0;
  min_proposal_quorum = 0;
  quorum_min = 0;
  quorum_max = 0;
  max_anon_ops_per_block = 0;
  invoices = [];
  silent_spendable = false;
  has_origination_bug = false;
  reactivate_by_tx = false;
  operation_tags_version = 0;
  num_voting_periods = 4;
  start_block_offset = 0;
}

-- Go panics on a division by zero: `none`.
abbrev pub div_checked : Int64 → Int64 → Option Int64
div_checked a b = if b == 0 then none else some (div64 a b)

abbrev pub rem_checked : Int64 → Int64 → Option Int64
rem_checked a b = if b == 0 then none else some (rem64 a b)

infixl 5 ◌>>=◌
abbrev pub ◌>>=◌ : {A B : Type 0} → Option A → (A → Option B) → Option B
none >>= f = none
some a >>= f = f a

-- `height > 0 && x%n == 0`; the right side is not evaluated where the left one fails.
unfoldable pub positive_multiple : Int64 → Int64 → Int64 → Option Bool
positive_multiple height x n =
    if lt64 0 height then (rem_checked x n >>= λ r. some (r == 0)) else some false

-- `IsCycleStart`
unfoldable pub is_cycle_start : Params → Int64 → Option Bool
unfolding positive_multiple
is_cycle_start p height = positive_multiple height (sub64 height 1) p.blocks_per_cycle

-- `IsCycleEnd`
unfoldable pub is_cycle_end : Params → Int64 → Option Bool
unfolding positive_multiple
is_cycle_end p height = positive_multiple height height p.blocks_per_cycle

-- `CycleFromHeight`
unfoldable pub cycle_from_height : Params → Int64 → Option Int64
cycle_from_height p height =
    if height == 0 then some 0 else div_checked (sub64 height 1) p.blocks_per_cycle

-- `CycleStartHeight`
unfoldable pub cycle_start_height : Params → Int64 → Int64
cycle_start_height p cycle = add64 (mul64 cycle p.blocks_per_cycle) 1

-- `CycleEndHeight`
unfoldable pub cycle_end_height : Params → Int64 → Int64
cycle_end_height p cycle = mul64 (add64 cycle 1) p.blocks_per_cycle

-- `SnapshotBlock`
unfoldable pub snapshot_block : Params → Int64 → Int64 → Int64
unfolding cycle_start_height
snapshot_block p cycle index =
    let lag = add64 p.preserved_cycles 2 in
    if lt64 cycle lag
    then 0
    else sub64
        (add64 (cycle_start_height p (sub64 cycle lag))
          (mul64 (add64 index 1) p.blocks_per_roll_snapshot))
        1

-- `VotingStartCycleFromHeight`
unfoldable pub voting_start_cycle_from_height : Params → Int64 → Option Int64
unfolding cycle_from_height
voting_start_cycle_from_height p height = do
  current_cycle ← cycle_from_height p height
  offset ← rem_checked (sub64 height p.start_block_offset) p.blocks_per_voting_period
  cycles ← div_checked offset p.blocks_per_cycle
  some (sub64 current_cycle cycles)

-- `IsVoteStart`
unfoldable pub is_vote_start : Params → Int64 → Option Bool
unfolding positive_multiple
is_vote_start p height =
    positive_multiple height (sub64 (sub64 height p.start_block_offset) 1)
      p.blocks_per_voting_period

-- `IsVoteEnd`
unfoldable pub is_vote_end : Params → Int64 → Option Bool
unfolding positive_multiple
is_vote_end p height =
    positive_multiple height (sub64 height p.start_block_offset) p.blocks_per_voting_period

-- `MaxBlockReward`
unfoldable pub max_block_reward : Params → Int64
max_block_reward p = add64 p.block_reward (mul64 p.endorsement_reward p.endorsers_per_block)

-- `ContainsHeight`
unfoldable pub contains_height : Params → Int64 → Bool
contains_height p height =
    (lt64 height 0 && lt64 p.end_height 0)
    || (not (lt64 height p.start_height) && (lt64 p.end_height 0 || not (lt64 p.end_height height)))
