-- ===== src/Models/Supply/Growth.antt =====
-- puller/models/supply.go: what one block adds to the supply.
use tezos_index.Common.{◌≡◌, arith, refl, List, [], ◌∷◌, if◌then◌else◌, Bool, true, false}
use tezos_index.Common.Int64.{Int64, IsInt64, add64, sub64}
use tezos_index.Chain.OpType.{OpType}
use tezos_index.Models.FlowType.{FlowType, FlowCategory}
use tezos_index.Models.Flow.{Flow}
use tezos_index.Models.Op.{Op}
use tezos_index.Models.Account.{Account}
use tezos_index.Models.Block.{Block}
use tezos_index.Models.Supply.{
  Supply, update, update_flow, update_flows, update_op, update_ops, burn_frozen, mint_airdrop,
}
use tezos_index.Models.Supply.{
  count_delegate, count_delegates, open_block, reset_staking, close_block,
}

abbrev is_airdrop : FlowType → Bool
is_airdrop FlowType.invoice = true
is_airdrop FlowType.airdrop = true
is_airdrop _ = false

-- What invoices and airdrops of a block mint.
unfoldable pub airdropped : List Flow → Int64
airdropped [] = 0
airdropped (f ∷ fs) = add64 (if is_airdrop f.operation then f.amount_in else 0) (airdropped fs)

-- What the flows of a block add to a supply, in the fields that stand in a sum with another.
pub record Grows (s t : Supply) (drop : Int64) : Type 0 where
  pub total : t.total ≡ add64 s.total drop
  pub minted : t.minted ≡ add64 s.minted drop
  pub minted_airdrop : t.minted_airdrop ≡ add64 s.minted_airdrop drop
  pub burned : t.burned ≡ s.burned
  pub fundraiser : add64 t.activated t.unclaimed ≡ add64 s.activated s.unclaimed
  pub foundation : add64 t.vested t.unvested ≡ add64 s.vested s.unvested

-- The numbers that a step adds to are int64 values.
record IsNumbers (s : Supply) : Type 0 where
  total : IsInt64 s.total
  minted : IsInt64 s.minted
  minted_airdrop : IsInt64 s.minted_airdrop

keep : (s : Supply) → IsNumbers s → Grows s s 0
unfolding add64
keep s n = record {
  total = omega arith;
  minted = omega arith;
  minted_airdrop = omega arith;
  burned = refl;
  fundraiser = refl;
  foundation = refl;
}

burn_frozen-Grows :
    (c : FlowCategory) (s : Supply) (x : Int64) → IsNumbers s → Grows s (burn_frozen c s x) 0
unfolding burn_frozen
burn_frozen-Grows FlowCategory.rewards s x n = ground (arith, keep s n)
burn_frozen-Grows c s x n = ground (arith, keep s n)

seed_burn-Grows :
    (burned : Bool) (s : Supply) (f : Flow)
    → IsNumbers s
    → Grows s
        (if burned
          then burn_frozen f.category
              (record s {
                burned_seed_miss = add64 s.burned_seed_miss f.amount_out;
                frozen = sub64 s.frozen f.amount_out;
              })
              f.amount_out
          else s)
        0
seed_burn-Grows true s f n = ground (
  arith,
  burn_frozen-Grows f.category
      (record s {
        burned_seed_miss = add64 s.burned_seed_miss f.amount_out;
        frozen = sub64 s.frozen f.amount_out;
      })
      f.amount_out,
)
seed_burn-Grows false s f n = keep s n

update_flow-Grows :
    (t : FlowType) (s : Supply) (f : Flow)
    → IsNumbers s
    → Grows s (update_flow t s f) (if is_airdrop t then f.amount_in else 0)
unfolding update_flow mint_airdrop add64 sub64
update_flow-Grows FlowType.nonce_revelation s f n = seed_burn-Grows f.is_burned s f n
update_flow-Grows FlowType.activation s f n = ground arith
update_flow-Grows FlowType.vest s f n = ground arith
update_flow-Grows FlowType.invoice s f n = ground arith
update_flow-Grows FlowType.airdrop s f n = ground arith
update_flow-Grows t s f n = keep s n

Grows-IsNumbers : {s t : Supply} {d : Int64} → Grows s t d → IsNumbers t
unfolding add64
Grows-IsNumbers g = ground arith

Grows-trans : {s t u : Supply} {d e : Int64} → Grows s t d → Grows t u e → Grows s u (add64 d e)
unfolding add64
Grows-trans g h = ground arith

update_flows-Grows :
    (s : Supply) (fs : List Flow) → IsNumbers s → Grows s (update_flows s fs) (airdropped fs)
unfolding update_flows airdropped
update_flows-Grows s [] n = keep s n
update_flows-Grows s (f ∷ fs) n =
    let first = update_flow-Grows f.operation s f n in
    Grows-trans first (update_flows-Grows (update_flow f.operation s f) fs (Grows-IsNumbers first))

update_op-Grows :
    (t : OpType) (s u : Supply) (o : Op) (d : Int64) → Grows s u d → Grows s (update_op t u o) d
unfolding update_op
update_op-Grows OpType.bake s u o d g = ground arith
update_op-Grows t s u o d g = ground arith

update_ops-Grows :
    (s u : Supply) (os : List Op) (d : Int64) → Grows s u d → Grows s (update_ops u os) d
unfolding update_ops
update_ops-Grows s u [] d g = g
update_ops-Grows s u (o ∷ os) d g =
    update_ops-Grows s (update_op o.type u o) os d (update_op-Grows o.type s u o d g)

count_delegates-Grows :
    (s u : Supply) (accs : List Account) (d : Int64)
    → Grows s u d
    → Grows s (count_delegates u accs) d
unfolding count_delegates count_delegate
count_delegates-Grows s u [] d g = g
count_delegates-Grows s u (acc ∷ accs) d g =
    count_delegates-Grows s (count_delegate u acc) accs d (ground arith)

-- What the update for a block adds. The total grows by the rewards less the burned coins, and by
-- the airdrops; the minted coins by rewards and airdrops; the burned coins by the block's; so the
-- total less what was minted, plus what was burned, never changes. Activations and vesting move
-- coins between the two parts of the fundraiser's and of the foundation's supply, whose sums stay.
-- The airdrops so far are an int64 value.
pub update_growth :
    (s : Supply) (b : Block) (delegates : List Account)
    → IsInt64 s.minted_airdrop
    → let t = update s b delegates in
      (t.total ≡ add64 (add64 s.total (sub64 b.rewards b.burned_supply)) (airdropped b.flows))
      × (t.minted ≡ add64 (add64 s.minted b.rewards) (airdropped b.flows))
      × (t.burned ≡ add64 s.burned b.burned_supply)
      × (sub64 (add64 t.total t.burned) t.minted ≡ sub64 (add64 s.total s.burned) s.minted)
      × (add64 t.activated t.unclaimed ≡ add64 s.activated s.unclaimed)
      × (add64 t.vested t.unvested ≡ add64 s.vested s.unvested)
unfolding update open_block reset_staking close_block add64 sub64
update_growth s b delegates n =
    let s' = open_block s b in
    let d = airdropped b.flows in
    let flows =
      update_flows-Grows s' b.flows
        (record { total = omega arith; minted = omega arith; minted_airdrop = n }) in
    let ops = update_ops-Grows s' (update_flows s' b.flows) b.ops d flows in
    let before = reset_staking (update_ops (update_flows s' b.flows) b.ops) in
    let done = count_delegates-Grows s' before delegates d (ground arith) in ground arith
