-- ===== src/Models/Chain/Sums.antt =====
-- puller/models/chain.go: how the totals of the chain add up.
use tezos_index.Common.{
  ◌≡◌, arith, refl, true, false, List, [], ◌∷◌, Option, none, some, if◌then◌else◌, Bool, not, ◌==◌,
  ◌≢◌,
}
use tezos_index.Common.Int64.{Int64, add64, lt64, div64}
use tezos_index.Chain.Params.{◌>>=◌}
use tezos_index.Models.Op.{Op}
use tezos_index.Models.Account.{Account, staking_balance}
use tezos_index.Models.Block.{Block}
use tezos_index.Models.Block.Totals.Accounts.{IsNewSum}
use tezos_index.Models.Chain.{
  Chain, update, add_block, add_paid_bytes, reset_delegates, count_active,
}
use tezos_index.Models.Chain.{
  count_inactive, count_rolls, count_delegate, count_delegates, count_orphan,
}

-- How the totals of the chain add up: delegates are active or inactive, their delegators likewise,
-- an active delegate has no, one or more delegators, and accounts are implicit, managed, or
-- contracts.
abbrev pub IsSum : Chain → Type 0
IsSum c =
    (c.total_delegates ≡ add64 c.active_delegates c.inactive_delegates)
    × (c.total_delegators ≡ add64 c.active_delegators c.inactive_delegators)
    × (c.active_delegates ≡ add64 (add64 c.self_delegates c.single_delegates) c.multi_delegates)
    × (c.total_accounts ≡ add64 (add64 c.total_implicit c.total_managed) c.total_contracts)

-- Accounts are implicit, managed, or contracts.
abbrev pub IsAccountSum : Chain → Type 0
IsAccountSum c = c.total_accounts ≡ add64 (add64 c.total_implicit c.total_managed) c.total_contracts

-- A computation that returns, with totals that add up.
abbrev Sums : Option Chain → Type 0
Sums o = (c : Chain) × (o ≡ some c) × IsSum c

rolls-IsSum :
    (zero few none_per_roll : Bool) (owned : Int64) (c : Chain)
    → none_per_roll ≡ false
    → IsSum c
    → Sums (
        if zero
        then some (record c { zero_delegates = add64 c.zero_delegates 1 })
        else if few
        then some c
        else (if none_per_roll then none else some owned) >>= λ r.
            some (record c { rolls = add64 c.rolls r; roll_owners = add64 c.roll_owners 1 }))
rolls-IsSum true few z owned c e h = (_, refl, h)
rolls-IsSum false true z owned c e h = (c, refl, h)
rolls-IsSum false false true owned c e h = cc
rolls-IsSum false false false owned c e h = (_, refl, h)

count_active-IsSum :
    (c : Chain) (n : Int64)
    → IsSum c
    → IsSum (
        count_active
          (record c {
            total_delegators = add64 c.total_delegators n;
            total_delegates = add64 c.total_delegates 1;
          })
          n)
unfolding count_active add64
count_active-IsSum c n h = ground arith

count_inactive-IsSum :
    (c : Chain) (n : Int64)
    → IsSum c
    → IsSum (
        count_inactive
          (record c {
            total_delegators = add64 c.total_delegators n;
            total_delegates = add64 c.total_delegates 1;
          })
          n)
unfolding count_inactive add64
count_inactive-IsSum c n h = ground arith

kinds-IsSum :
    (registered active : Bool) (c : Chain) (n bal tokens_per_roll : Int64)
    → tokens_per_roll ≢ 0
    → IsSum c
    → let counted = record c {
      total_delegators = add64 c.total_delegators n;
      total_delegates = add64 c.total_delegates 1;
    } in
      Sums (
        if not registered
        then some c
        else if not active
        then some (count_inactive counted n)
        else count_rolls (count_active counted n) bal tokens_per_roll)
unfolding count_rolls
kinds-IsSum false active c n bal tpr e h = (c, refl, h)
kinds-IsSum true false c n bal tpr e h = (_, refl, count_inactive-IsSum c n h)
kinds-IsSum true true c n bal tpr e h =
    rolls-IsSum (bal == 0) (lt64 bal tpr) (tpr == 0) (div64 bal tpr) _ (ground arith)
      (count_active-IsSum c n h)

count_delegates-IsSum :
    (b : Block) (c : Chain) (l : List Account)
    → b.params.tokens_per_roll ≢ 0
    → IsSum c
    → Sums (count_delegates b c l)
unfolding count_delegates count_delegate
count_delegates-IsSum b c [] e h = (c, refl, h)
count_delegates-IsSum b c (acc ∷ l) e h =
    let (c', eq, h') =
      kinds-IsSum acc.is_delegate acc.is_active_delegate c acc.active_delegations
        (staking_balance acc) b.params.tokens_per_roll e h in
    rw eq (count_delegates-IsSum b c' l e h')

add_paid_bytes-IsAccountSum :
    (c : Chain) (os : List Op) → IsAccountSum c → IsAccountSum (add_paid_bytes c os)
unfolding add_paid_bytes
add_paid_bytes-IsAccountSum c [] h = h
add_paid_bytes-IsAccountSum c (o ∷ os) h =
    add_paid_bytes-IsAccountSum
      (record c { total_paid_bytes = add64 c.total_paid_bytes o.storage_paid }) os h

-- Where a roll has tokens, the update for a block returns, and its totals add up: delegates are
-- active or inactive, and so are their delegators; an active delegate has no, one or more
-- delegators; accounts are implicit, managed, or contracts, where that holds of the accounts so
-- far and of the new accounts of the block.
pub update-IsSum :
    (c : Chain) (b : Block) (delegates : List Account)
    → b.params.tokens_per_roll ≢ 0
    → IsAccountSum c
    → IsNewSum b
    → (c' : Chain) × (update c b delegates ≡ some c') × IsSum c'
unfolding update add_block reset_delegates count_orphan add64
update-IsSum c b delegates e h k =
    let added : IsAccountSum (add_block c b) = omega arith in
    let paid = add_paid_bytes (add_block c b) b.ops in
    let accounts : IsAccountSum paid = add_paid_bytes-IsAccountSum (add_block c b) b.ops added in
    let (counted, eq, sums) =
      count_delegates-IsSum b (reset_delegates paid) delegates e
        (omega arith, omega arith, omega arith, accounts) in
    rw eq (_, refl, sums)
