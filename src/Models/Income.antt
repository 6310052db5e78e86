-- ===== src/Models/Income.antt =====
-- puller/models/income.go: the income sheet of a baker for one cycle, and `x.Field += v` on its
-- counters.
pub mod Laws
pub mod Undo
use tezos_index.Common.{ℕ, List, [], ◌∷◌, if◌then◌else◌}
use tezos_index.Common.Int64.{Int64, add64, sub64, mul64, div64, lt64}

-- `Income`
pub record Income : Type 0 where
  pub row_id : ℕ
  pub cycle : Int64
  pub account_id : ℕ
  pub rolls : Int64
  pub balance : Int64
  pub delegated : Int64
  pub n_delegations : Int64
  pub n_baking_rights : Int64
  pub n_endorsing_rights : Int64
  pub luck : Int64
  pub luck_pct : Int64
  pub contribution_pct : Int64
  pub performance_pct : Int64
  pub n_blocks_baked : Int64
  pub n_blocks_lost : Int64
  pub n_blocks_stolen : Int64
  pub n_slots_endorsed : Int64
  pub n_slots_missed : Int64
  pub n_seeds_revealed : Int64
  pub expected_income : Int64
  pub expected_bonds : Int64
  pub total_income : Int64
  pub total_bonds : Int64
  pub baking_income : Int64
  pub endorsing_income : Int64
  pub double_baking_income : Int64
  pub double_endorsing_income : Int64
  pub seed_income : Int64
  pub fees_income : Int64
  pub missed_baking_income : Int64
  pub missed_endorsing_income : Int64
  pub stolen_baking_income : Int64
  pub total_lost : Int64
  pub lost_accusation_fees : Int64
  pub lost_accusation_rewards : Int64
  pub lost_accusation_deposits : Int64
  pub lost_revelation_fees : Int64
  pub lost_revelation_rewards : Int64

-- A sheet with every number at zero, as `Reset` leaves it.
abbrev pub zero_income : Income
zero_income = record {
  row_id = 0;
  cycle = 0;
  account_id = 0;
  rolls = 0;
  balance = 0;
  delegated = 0;
  n_delegations = 0;
  n_baking_rights = 0;
  n_endorsing_rights = 0;
  luck = 0;
  luck_pct = 0;
  contribution_pct = 0;
  performance_pct = 0;
  n_blocks_baked = 0;
  n_blocks_lost = 0;
  n_blocks_stolen = 0;
  n_slots_endorsed = 0;
  n_slots_missed = 0;
  n_seeds_revealed = 0;
  expected_income = 0;
  expected_bonds = 0;
  total_income = 0;
  total_bonds = 0;
  baking_income = 0;
  endorsing_income = 0;
  double_baking_income = 0;
  double_endorsing_income = 0;
  seed_income = 0;
  fees_income = 0;
  missed_baking_income = 0;
  missed_endorsing_income = 0;
  stolen_baking_income = 0;
  total_lost = 0;
  lost_accusation_fees = 0;
  lost_accusation_rewards = 0;
  lost_accusation_deposits = 0;
  lost_revelation_fees = 0;
  lost_revelation_rewards = 0;
}

-- The counters that a block changes.
pub data Column : Type 0 where
  n_blocks_baked n_blocks_lost n_blocks_stolen n_slots_endorsed : Column
  n_slots_missed n_seeds_revealed total_income total_bonds : Column
  baking_income endorsing_income double_baking_income double_endorsing_income : Column
  seed_income fees_income missed_baking_income missed_endorsing_income : Column
  stolen_baking_income total_lost lost_accusation_fees lost_accusation_rewards : Column
  lost_accusation_deposits lost_revelation_fees lost_revelation_rewards : Column

-- The value of a counter.
unfoldable pub get : Column → Income → Int64
get Column.n_blocks_baked r = r.n_blocks_baked
get Column.n_blocks_lost r = r.n_blocks_lost
get Column.n_blocks_stolen r = r.n_blocks_stolen
get Column.n_slots_endorsed r = r.n_slots_endorsed
get Column.n_slots_missed r = r.n_slots_missed
get Column.n_seeds_revealed r = r.n_seeds_revealed
get Column.total_income r = r.total_income
get Column.total_bonds r = r.total_bonds
get Column.baking_income r = r.baking_income
get Column.endorsing_income r = r.endorsing_income
get Column.double_baking_income r = r.double_baking_income
get Column.double_endorsing_income r = r.double_endorsing_income
get Column.seed_income r = r.seed_income
get Column.fees_income r = r.fees_income
get Column.missed_baking_income r = r.missed_baking_income
get Column.missed_endorsing_income r = r.missed_endorsing_income
get Column.stolen_baking_income r = r.stolen_baking_income
get Column.total_lost r = r.total_lost
get Column.lost_accusation_fees r = r.lost_accusation_fees
get Column.lost_accusation_rewards r = r.lost_accusation_rewards
get Column.lost_accusation_deposits r = r.lost_accusation_deposits
get Column.lost_revelation_fees r = r.lost_revelation_fees
get Column.lost_revelation_rewards r = r.lost_revelation_rewards

-- `r.Column += v`
unfoldable pub add : Column → Int64 → Income → Income
add Column.n_blocks_baked v r = record r { n_blocks_baked = add64 r.n_blocks_baked v }
add Column.n_blocks_lost v r = record r { n_blocks_lost = add64 r.n_blocks_lost v }
add Column.n_blocks_stolen v r = record r { n_blocks_stolen = add64 r.n_blocks_stolen v }
add Column.n_slots_endorsed v r = record r { n_slots_endorsed = add64 r.n_slots_endorsed v }
add Column.n_slots_missed v r = record r { n_slots_missed = add64 r.n_slots_missed v }
add Column.n_seeds_revealed v r = record r { n_seeds_revealed = add64 r.n_seeds_revealed v }
add Column.total_income v r = record r { total_income = add64 r.total_income v }
add Column.total_bonds v r = record r { total_bonds = add64 r.total_bonds v }
add Column.baking_income v r = record r { baking_income = add64 r.baking_income v }
add Column.endorsing_income v r = record r { endorsing_income = add64 r.endorsing_income v }
add Column.double_baking_income v r = record r {
  double_baking_income = add64 r.double_baking_income v;
}
add Column.double_endorsing_income v r = record r {
  double_endorsing_income = add64 r.double_endorsing_income v;
}
add Column.seed_income v r = record r { seed_income = add64 r.seed_income v }
add Column.fees_income v r = record r { fees_income = add64 r.fees_income v }
add Column.missed_baking_income v r = record r {
  missed_baking_income = add64 r.missed_baking_income v;
}
add Column.missed_endorsing_income v r = record r {
  missed_endorsing_income = add64 r.missed_endorsing_income v;
}
add Column.stolen_baking_income v r = record r {
  stolen_baking_income = add64 r.stolen_baking_income v;
}
add Column.total_lost v r = record r { total_lost = add64 r.total_lost v }
add Column.lost_accusation_fees v r = record r {
  lost_accusation_fees = add64 r.lost_accusation_fees v;
}
add Column.lost_accusation_rewards v r = record r {
  lost_accusation_rewards = add64 r.lost_accusation_rewards v;
}
add Column.lost_accusation_deposits v r = record r {
  lost_accusation_deposits = add64 r.lost_accusation_deposits v;
}
add Column.lost_revelation_fees v r = record r {
  lost_revelation_fees = add64 r.lost_revelation_fees v;
}
add Column.lost_revelation_rewards v r = record r {
  lost_revelation_rewards = add64 r.lost_revelation_rewards v;
}

-- A run of such assignments, each amount times `mul`, which is 1 for a block that is connected and
-- -1 for one that is rolled back.
unfoldable pub add_all : Int64 → List (Column × Int64) → Income → Income
add_all mul [] r = r
add_all mul ((c, v) ∷ vs) r = add_all mul vs (add c (mul64 v mul) r)

-- `v.PerformancePct`: the income, less what is lost, as a share of what is expected.
unfoldable pub performance : Income → Int64
performance r =
    let gain = sub64 (sub64 r.total_income r.total_lost) r.expected_income in
    if lt64 0 r.expected_income
    then add64 10000 (div64 (mul64 gain 10000) r.expected_income)
    else r.performance_pct

-- `v.ContributionPct`: the blocks and slots done as a share of the rights.
unfoldable pub contribution : Income → Int64
contribution r =
    let rights = add64 r.n_baking_rights r.n_endorsing_rights in
    let gain = sub64 (add64 r.n_blocks_baked r.n_slots_endorsed) rights in
    if lt64 0 rights then add64 10000 (div64 (mul64 gain 10000) rights) else r.contribution_pct

-- The last loop of `UpdateBlockIncome` and of `UpdateNonceRevelations`.
unfoldable pub grade : Income → Income
unfolding performance contribution
grade r = record r { performance_pct = performance r; contribution_pct = contribution r }
