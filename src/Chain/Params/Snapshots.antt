-- ===== src/Chain/Params/Snapshots.antt =====
-- chain/params.go: the blocks at which the rolls of a cycle are snapshot.
use native.Mathlib.Nat.{mul-le-mul_right}
use tezos_index.Common.{◌≡◌, ◌≤◌, ◌<◌, ◌+◌, ◌-◌, ◌*◌, ◌^◌, arith, some}
use tezos_index.Common.Int64.{Int64, add64-exact, sub64-exact, mul64-exact, lt64-exact}
use tezos_index.Chain.Params.{Params, cycle_from_height, snapshot_block}
use tezos_index.Chain.Params.Heights.{cycle_start_height-eq, cycle_end_height-eq, products}
use tezos_index.Chain.Params.Heights.{cycle_from_height_unique}

snapshot_block-eq :
    (p : Params) (cycle index : Int64)
    → p.preserved_cycles + 2 ≤ cycle
    → cycle < 2 ^ 63
    → index + 1 < 2 ^ 63
    → (cycle - (p.preserved_cycles + 2)) * p.blocks_per_cycle
        + 1
        + (index + 1) * p.blocks_per_roll_snapshot
      < 2 ^ 63
    → snapshot_block p cycle index
      ≡ (cycle - (p.preserved_cycles + 2)) * p.blocks_per_cycle
        + (index + 1) * p.blocks_per_roll_snapshot
unfolding snapshot_block
snapshot_block-eq p cycle index lag small si bound =
    let early = cycle - (p.preserved_cycles + 2) in
    let offset = (index + 1) * p.blocks_per_roll_snapshot in
    ground (
      arith,
      add64-exact p.preserved_cycles 2,
      lt64-exact cycle (p.preserved_cycles + 2),
      sub64-exact cycle (p.preserved_cycles + 2),
      cycle_start_height-eq p early,
      add64-exact index 1,
      mul64-exact (index + 1) p.blocks_per_roll_snapshot,
      add64-exact (early * p.blocks_per_cycle + 1) offset,
      sub64-exact (early * p.blocks_per_cycle + 1 + offset) 1,
    )

-- From cycle `preserved_cycles + 2` on, the block of a roll snapshot lies in the cycle that many
-- cycles before, for every index whose snapshot interval ends within the cycle.
pub snapshot_block-range :
    (p : Params) (cycle index : Int64)
    → 0 < p.blocks_per_roll_snapshot
    → (index + 1) * p.blocks_per_roll_snapshot ≤ p.blocks_per_cycle
    → p.preserved_cycles + 2 ≤ cycle
    → (cycle + 2) * p.blocks_per_cycle < 2 ^ 63
    → cycle_from_height p (snapshot_block p cycle index) ≡ some (cycle - (p.preserved_cycles + 2))
snapshot_block-range p cycle index s fit lag bound =
    let b = p.blocks_per_cycle in
    let offset = (index + 1) * p.blocks_per_roll_snapshot in
    let early = cycle - (p.preserved_cycles + 2) in
    let indexed : index + 1 ≤ offset = grind arith in
    let lower : (early + 2) * b ≤ (cycle + 2) * b = mul-le-mul_right b (omega arith) in
    let (split, next, wide) = products early b (omega arith) in
    let (split', next', wide') = products cycle b (omega arith) in
    let first = cycle_start_height-eq p early (omega arith) in
    let last = cycle_end_height-eq p early (omega arith) (omega arith) in
    let exact = snapshot_block-eq p cycle index lag (omega arith) (omega arith) (omega arith) in
    cycle_from_height_unique p early (snapshot_block p cycle index) (omega arith) (omega arith)
      (omega (arith, exact, first)) (omega (arith, exact, last))
