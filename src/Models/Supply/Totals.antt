-- ===== src/Models/Supply/Totals.antt =====
-- puller/models/supply.go: how the totals of the supply add up after a block.
use tezos_index.Common.{
  ◌≡◌, ◌%◌, ◌^◌, arith, refl, true, false, List, [], ◌∷◌, Bool, ◌&&◌, ◌||◌, not,
}
use tezos_index.Common.{if◌then◌else◌}
use tezos_index.Common.Int64.{Int64, add64, sub64}
use tezos_index.Chain.OpType.{OpType}
use tezos_index.Models.FlowType.{FlowCategory, FlowType}
use tezos_index.Models.Flow.{Flow}
use tezos_index.Models.Op.{Op}
use tezos_index.Models.Account.{Account}
use tezos_index.Models.Block.{Block}
use tezos_index.Models.Supply.{Supply, update, update_flow, update_flows, update_op, update_ops}
use tezos_index.Models.Supply.{
  count_delegate, count_delegates, open_block, burn_frozen, reset_staking, close_block,
}

-- The frozen supply is the sum of the three kinds of frozen coins.
abbrev IsFrozenSum : Supply → Type 0
IsFrozenSum s = s.frozen ≡ add64 (add64 s.frozen_deposits s.frozen_fees) s.frozen_rewards

abbrev is_freezer_category : FlowCategory → Bool
is_freezer_category FlowCategory.rewards = true
is_freezer_category FlowCategory.fees = true
is_freezer_category _ = false

abbrev is_seed_burn : FlowType → Flow → Bool
is_seed_burn FlowType.nonce_revelation f = f.is_burned
is_seed_burn _ f = false

-- What is burned for a nonce that was not revealed leaves frozen rewards or frozen fees.
unfoldable pub is_seed_burns_frozen : List Flow → Bool
is_seed_burns_frozen [] = true
is_seed_burns_frozen (f ∷ fs) =
    (not (is_seed_burn f.operation f) || is_freezer_category f.category) && is_seed_burns_frozen fs

&&-parts : (p q : Bool) → (p && q) ≡ true → (p ≡ true) × (q ≡ true)
&&-parts p q e = ground arith

burn_frozen-IsFrozenSum :
    (c : FlowCategory) (s : Supply) (x : Int64)
    → is_freezer_category c ≡ true
    → IsFrozenSum s
    → IsFrozenSum (burn_frozen c (record s { frozen = sub64 s.frozen x }) x)
unfolding burn_frozen add64 sub64
burn_frozen-IsFrozenSum FlowCategory.rewards s x e h = ground arith
burn_frozen-IsFrozenSum c s x e h = ground arith

seed_burn-IsFrozenSum :
    (burned : Bool) (c : FlowCategory) (s : Supply) (f : Flow)
    → (not burned || is_freezer_category c) ≡ true
    → IsFrozenSum s
    → IsFrozenSum (
        if burned
        then burn_frozen c
            (record s {
              burned_seed_miss = add64 s.burned_seed_miss f.amount_out;
              frozen = sub64 s.frozen f.amount_out;
            })
            f.amount_out
        else s)
seed_burn-IsFrozenSum true c s f e h =
    burn_frozen-IsFrozenSum c
      (record s { burned_seed_miss = add64 s.burned_seed_miss f.amount_out }) f.amount_out e h
seed_burn-IsFrozenSum false c s f e h = h

update_flow-IsFrozenSum :
    (t : FlowType) (s : Supply) (f : Flow)
    → (not (is_seed_burn t f) || is_freezer_category f.category) ≡ true
    → IsFrozenSum s
    → IsFrozenSum (update_flow t s f)
unfolding update_flow
update_flow-IsFrozenSum FlowType.nonce_revelation s f e h =
    seed_burn-IsFrozenSum f.is_burned f.category s f e h
update_flow-IsFrozenSum t s f e h = h

update_flows-IsFrozenSum :
    (s : Supply) (fs : List Flow)
    → is_seed_burns_frozen fs ≡ true
    → IsFrozenSum s
    → IsFrozenSum (update_flows s fs)
unfolding update_flows is_seed_burns_frozen
update_flows-IsFrozenSum s [] e h = h
update_flows-IsFrozenSum s (f ∷ fs) e h =
    let (first, rest) =
      &&-parts (not (is_seed_burn f.operation f) || is_freezer_category f.category)
        (is_seed_burns_frozen fs) e in
    update_flows-IsFrozenSum (update_flow f.operation s f) fs rest
      (update_flow-IsFrozenSum f.operation s f first h)

update_op-IsFrozenSum :
    (t : OpType) (s : Supply) (o : Op) → IsFrozenSum s → IsFrozenSum (update_op t s o)
unfolding update_op
update_op-IsFrozenSum OpType.bake s o h = h
update_op-IsFrozenSum t s o h = h

update_ops-IsFrozenSum : (s : Supply) (os : List Op) → IsFrozenSum s → IsFrozenSum (update_ops s os)
unfolding update_ops
update_ops-IsFrozenSum s [] h = h
update_ops-IsFrozenSum s (o ∷ os) h =
    update_ops-IsFrozenSum (update_op o.type s o) os (update_op-IsFrozenSum o.type s o h)

count_delegates-IsFrozenSum :
    (s : Supply) (accs : List Account) → IsFrozenSum s → IsFrozenSum (count_delegates s accs)
unfolding count_delegates count_delegate
count_delegates-IsFrozenSum s [] h = h
count_delegates-IsFrozenSum s (acc ∷ accs) h =
    count_delegates-IsFrozenSum (count_delegate s acc) accs h

-- The stakes of active and of inactive delegates.
record IsStakeSum (s : Supply) : Type 0 where
  staking : s.staking ≡ add64 s.active_staking s.inactive_staking
  delegated : s.delegated ≡ add64 s.active_delegated s.inactive_delegated

count_delegate-IsStakeSum :
    (s : Supply) (acc : Account) → IsStakeSum s → IsStakeSum (count_delegate s acc)
unfolding count_delegate add64
count_delegate-IsStakeSum s acc h = ground arith

count_delegates-IsStakeSum :
    (s : Supply) (accs : List Account) → IsStakeSum s → IsStakeSum (count_delegates s accs)
unfolding count_delegates
count_delegates-IsStakeSum s [] h = h
count_delegates-IsStakeSum s (acc ∷ accs) h =
    count_delegates-IsStakeSum (count_delegate s acc) accs (count_delegate-IsStakeSum s acc h)

-- How the totals of a supply add up.
pub record IsBalanced (s : Supply) : Type 0 where
  pub frozen : s.frozen ≡ add64 (add64 s.frozen_deposits s.frozen_fees) s.frozen_rewards
  pub circulating : add64 s.circulating s.unvested ≡ s.total % 2 ^ 64
  pub minted :
      add64 (add64 (add64 s.minted_baking s.minted_airdrop) s.minted_endorsing) s.minted_seeding
      ≡ s.minted % 2 ^ 64
  pub staking : s.staking ≡ add64 s.active_staking s.inactive_staking
  pub delegated : s.delegated ≡ add64 s.active_delegated s.inactive_delegated

close_block-IsBalanced : (s : Supply) → IsFrozenSum s → IsStakeSum s → IsBalanced (close_block s)
unfolding close_block add64 sub64
close_block-IsBalanced s h k = record {
  frozen = h;
  circulating = omega arith;
  minted = omega arith;
  staking = k.staking;
  delegated = k.delegated;
}

-- After the update for a block the totals of the supply add up, whatever they were before: frozen
-- coins are deposits, fees and rewards; the total is what circulates and what is not vested; coins
-- are minted by baking, endorsing, nonces and airdrops; stakes are those of active and of inactive
-- delegates. The condition: what is burned for a nonce leaves frozen rewards or frozen fees.
pub update-IsBalanced :
    (s : Supply) (b : Block) (delegates : List Account)
    → is_seed_burns_frozen b.flows ≡ true
    → IsBalanced (update s b delegates)
unfolding update open_block reset_staking add64
update-IsBalanced s b delegates e =
    let opened = update_flows-IsFrozenSum (open_block s b) b.flows e refl in
    let done = update_ops-IsFrozenSum (update_flows (open_block s b) b.flows) b.ops opened in
    let before = reset_staking (update_ops (update_flows (open_block s b) b.flows) b.ops) in
    close_block-IsBalanced (count_delegates before delegates)
      (count_delegates-IsFrozenSum before delegates done)
      (count_delegates-IsStakeSum before delegates (ground arith))
