-- ===== src/Models/Chain.antt =====
-- puller/models/chain.go: the totals of the chain after a block.
pub mod Sums
use tezos_index.Common.{
  ℕ, Bool, true, false, not, List, [], ◌∷◌, Option, none, some, ◌==◌, if◌then◌else◌,
}
use tezos_index.Common.Int64.{Int64, add64, sub64, lt64}
use tezos_index.Chain.Params.{Params, div_checked, ◌>>=◌}
use tezos_index.Models.Op.{Op}
use tezos_index.Models.Account.{Account, staking_balance}
use tezos_index.Models.Block.{Block}

pub record Chain : Type 0 where
  pub row_id : ℕ
  pub height : Int64
  pub cycle : Int64
  pub timestamp : ℕ
  pub total_accounts : Int64
  pub total_implicit : Int64
  pub total_managed : Int64
  pub total_contracts : Int64
  pub total_ops : Int64
  pub total_contract_ops : Int64
  pub total_activations : Int64
  pub total_seed_nonces : Int64
  pub total_endorsements : Int64
  pub total_double_bake : Int64
  pub total_double_endorse : Int64
  pub total_delegations : Int64
  pub total_reveals : Int64
  pub total_originations : Int64
  pub total_transactions : Int64
  pub total_proposals : Int64
  pub total_ballots : Int64
  pub total_storage_bytes : Int64
  pub total_paid_bytes : Int64
  pub total_used_bytes : Int64
  pub total_orphans : Int64
  pub funded_accounts : Int64
  pub unclaimed_accounts : Int64
  pub total_delegators : Int64
  pub active_delegators : Int64
  pub inactive_delegators : Int64
  pub total_delegates : Int64
  pub active_delegates : Int64
  pub inactive_delegates : Int64
  pub zero_delegates : Int64
  pub self_delegates : Int64
  pub single_delegates : Int64
  pub multi_delegates : Int64
  pub rolls : Int64
  pub roll_owners : Int64

-- What `Update` takes from the totals of the block.
unfoldable pub add_block : Chain → Block → Chain
add_block c b = record c {
  row_id = 0;
  height = b.height;
  cycle = b.cycle;
  timestamp = b.timestamp;
  total_accounts = add64 c.total_accounts b.new_accounts;
  total_implicit = add64 c.total_implicit b.new_implicit_accounts;
  total_managed = add64 c.total_managed b.new_managed_accounts;
  total_contracts = add64 c.total_contracts b.new_contracts;
  total_ops = add64 c.total_ops b.n_ops;
  total_contract_ops = add64 c.total_contract_ops b.n_ops_contract;
  total_activations = add64 c.total_activations b.n_activation;
  unclaimed_accounts = sub64 c.unclaimed_accounts b.n_activation;
  total_seed_nonces = add64 c.total_seed_nonces b.n_seed_nonce;
  total_endorsements = add64 c.total_endorsements b.n_endorsement;
  total_double_bake = add64 c.total_double_bake b.n2_baking;
  total_double_endorse = add64 c.total_double_endorse b.n2_endorsement;
  total_delegations = add64 c.total_delegations b.n_delegation;
  total_reveals = add64 c.total_reveals b.n_reveal;
  total_originations = add64 c.total_originations b.n_origination;
  total_transactions = add64 c.total_transactions b.n_tx;
  total_proposals = add64 c.total_proposals b.n_proposal;
  total_ballots = add64 c.total_ballots b.n_ballot;
  total_storage_bytes = add64 c.total_storage_bytes b.storage_size;
  funded_accounts = add64 c.funded_accounts (sub64 b.funded_accounts b.cleared_accounts);
}

unfoldable pub add_paid_bytes : Chain → List Op → Chain
add_paid_bytes c [] = c
add_paid_bytes c (o ∷ os) =
    add_paid_bytes (record c { total_paid_bytes = add64 c.total_paid_bytes o.storage_paid }) os

-- The totals across delegates start at zero.
unfoldable pub reset_delegates : Chain → Chain
reset_delegates c = record c {
  total_delegators = 0;
  active_delegators = 0;
  inactive_delegators = 0;
  total_delegates = 0;
  active_delegates = 0;
  inactive_delegates = 0;
  zero_delegates = 0;
  self_delegates = 0;
  single_delegates = 0;
  multi_delegates = 0;
  rolls = 0;
  roll_owners = 0;
}

-- An active delegate, by the number of its delegators.
unfoldable pub count_active : Chain → Int64 → Chain
count_active c delegations =
    let none_yet = delegations == 0 in
    let single = delegations == 1 in
    record c {
      active_delegates = add64 c.active_delegates 1;
      active_delegators = add64 c.active_delegators delegations;
      self_delegates = if none_yet then add64 c.self_delegates 1 else c.self_delegates;
      single_delegates =
          if none_yet
          then c.single_delegates
          else if single
          then add64 c.single_delegates 1
          else c.single_delegates;
      multi_delegates =
          if none_yet
          then c.multi_delegates
          else if single
          then c.multi_delegates
          else add64 c.multi_delegates 1;
    }

unfoldable pub count_inactive : Chain → Int64 → Chain
count_inactive c delegations = record c {
  inactive_delegates = add64 c.inactive_delegates 1;
  inactive_delegators = add64 c.inactive_delegators delegations;
}

-- The rolls of an active delegate; a roll of no tokens makes the division panic.
unfoldable pub count_rolls : Chain → Int64 → Int64 → Option Chain
count_rolls c bal tokens_per_roll =
    if bal == 0
    then some (record c { zero_delegates = add64 c.zero_delegates 1 })
    else if lt64 bal tokens_per_roll
    then some c
    else div_checked bal tokens_per_roll >>= λ owned.
        some (record c { rolls = add64 c.rolls owned; roll_owners = add64 c.roll_owners 1 })

-- One account of the map of delegates.
unfoldable pub count_delegate : Block → Chain → Account → Option Chain
unfolding count_active count_inactive count_rolls staking_balance
count_delegate b c acc =
    let counted = record c {
      total_delegators = add64 c.total_delegators acc.active_delegations;
      total_delegates = add64 c.total_delegates 1;
    } in
    if not acc.is_delegate
    then some c
    else if not acc.is_active_delegate
    then some (count_inactive counted acc.active_delegations)
    else count_rolls (count_active counted acc.active_delegations) (staking_balance acc)
        b.params.tokens_per_roll

unfoldable pub count_delegates : Block → Chain → List Account → Option Chain
unfolding count_delegate
count_delegates b c [] = some c
count_delegates b c (acc ∷ accs) = count_delegate b c acc >>= λ c'. count_delegates b c' accs

unfoldable pub count_orphan : Block → Chain → Chain
count_orphan b c = record c {
  total_orphans = if b.is_orphan then add64 c.total_orphans 1 else c.total_orphans;
}

-- `Update`, with the delegates in the order in which the map is ranged over.
unfoldable pub update : Chain → Block → List Account → Option Chain
update c b delegates =
    count_delegates b (reset_delegates (add_paid_bytes (add_block c b) b.ops)) delegates
    >>= λ counted. some (count_orphan b counted)

-- `Rollback`
unfoldable pub rollback : Chain → Block → Chain
rollback c b = record c { height = b.height; cycle = b.cycle }
