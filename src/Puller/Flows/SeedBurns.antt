-- ===== src/Puller/Flows/SeedBurns.antt =====
-- puller/flow.go: what `NewBakerFlows` burns for a nonce that was not revealed.
use tezos_index.Common.{ℕ, ◌≡◌, arith, refl, subst, Bool, true, List, [], ◌∷◌, ◌++◌}
use tezos_index.Common.Int64.{Int64}
use tezos_index.Chain.Address.{Address}
use tezos_index.Rpc.Balance.{BalanceUpdate, BalanceUpdates, FreezerCategory, FreezerUpdate}
use tezos_index.Models.Flow.{Flow}
use tezos_index.Models.Account.{Account}
use tezos_index.Models.Block.{Block}
use tezos_index.Models.Supply.Totals.{is_seed_burns_frozen}
use tezos_index.Puller.Builder.{Builder, ok, commit}
use tezos_index.Puller.Builder.Laws.{>>=-eq-ok, commit-eq-ok}
use tezos_index.Puller.Flows.Baking.{
  baker_contract_flow, baker_freezer_flows, baker_frozen_flows, baker_payout_flows, baker_loop,
  new_baker_flows, required_account, is_seed_nonce_slashing,
}

is_seed_burns_frozen-append :
    (fs gs : List Flow)
    → is_seed_burns_frozen fs ≡ true
    → is_seed_burns_frozen gs ≡ true
    → is_seed_burns_frozen (fs ++ gs) ≡ true
unfolding is_seed_burns_frozen
is_seed_burns_frozen-append [] gs e h = h
is_seed_burns_frozen-append (f ∷ fs) gs e h = ground (arith, is_seed_burns_frozen-append fs gs)

baker_contract_flow-is_seed_burns_frozen :
    (b : Block) (acc : Account) (x : Int64)
    → is_seed_burns_frozen (baker_contract_flow b acc x ∷ []) ≡ true
unfolding is_seed_burns_frozen baker_contract_flow
baker_contract_flow-is_seed_burns_frozen b acc x = ground arith

baker_payout_flows-is_seed_burns_frozen :
    (b : Block) (acc : Account) (c : FreezerCategory) (slashed : Bool) (x : Int64)
    → is_seed_burns_frozen (baker_payout_flows b acc c slashed x) ≡ true
unfolding is_seed_burns_frozen baker_payout_flows
baker_payout_flows-is_seed_burns_frozen b acc FreezerCategory.rewards true x = refl
baker_payout_flows-is_seed_burns_frozen b acc c slashed x = ground arith

baker_frozen_flows-is_seed_burns_frozen :
    (b : Block) (acc : Account) (c : FreezerCategory) (x : Int64)
    → is_seed_burns_frozen (baker_frozen_flows b acc c x) ≡ true
unfolding is_seed_burns_frozen baker_frozen_flows
baker_frozen_flows-is_seed_burns_frozen b acc FreezerCategory.rewards x = refl
baker_frozen_flows-is_seed_burns_frozen b acc c x = refl

baker_freezer_flows-is_seed_burns_frozen :
    (b : Block) (acc : Account) (u : FreezerUpdate)
    → is_seed_burns_frozen (baker_freezer_flows b acc u) ≡ true
unfolding baker_freezer_flows
baker_freezer_flows-is_seed_burns_frozen b acc u = ground (
  arith,
  baker_payout_flows-is_seed_burns_frozen b acc u.category (is_seed_nonce_slashing b u) u.change,
  baker_frozen_flows-is_seed_burns_frozen b acc u.category u.change,
)

baker_loop-is_seed_burns_frozen :
    (hash_key : Address → ℕ) (b : Builder) (us : BalanceUpdates) (flows made : List Flow)
    → is_seed_burns_frozen flows ≡ true
    → baker_loop hash_key b flows us ≡ ok made
    → is_seed_burns_frozen made ≡ true
unfolding baker_loop
baker_loop-is_seed_burns_frozen hash_key b [] flows made h e = ground arith
baker_loop-is_seed_burns_frozen hash_key b (BalanceUpdate.contract u ∷ us) flows made h e =
    let (acc, m, e') = >>=-eq-ok (required_account hash_key b u.contract) _ made e in
    baker_loop-is_seed_burns_frozen hash_key b us _ made
      (is_seed_burns_frozen-append flows _ h
        (baker_contract_flow-is_seed_burns_frozen b.block acc u.change))
      e'
baker_loop-is_seed_burns_frozen hash_key b (BalanceUpdate.freezer u ∷ us) flows made h e =
    let (acc, m, e') = >>=-eq-ok (required_account hash_key b u.delegate) _ made e in
    baker_loop-is_seed_burns_frozen hash_key b us _ made
      (is_seed_burns_frozen-append flows _ h
        (baker_freezer_flows-is_seed_burns_frozen b.block acc u))
      e'
baker_loop-is_seed_burns_frozen hash_key b (BalanceUpdate.generic c ∷ us) flows made h e =
    baker_loop-is_seed_burns_frozen hash_key b us flows made h e

-- The flows that are made for the baker of a block burn coins for a nonce only out of frozen
-- rewards and frozen fees: where the flows of the block did so before, they do so after.
pub new_baker_flows-is_seed_burns_frozen :
    (hash_key : Address → ℕ) (b b' : Builder) (upd : BalanceUpdates) (flows : List Flow)
    → is_seed_burns_frozen b.block.flows ≡ true
    → new_baker_flows hash_key b upd ≡ ok (b', flows)
    → is_seed_burns_frozen b'.block.flows ≡ true
unfolding new_baker_flows is_seed_burns_frozen
new_baker_flows-is_seed_burns_frozen hash_key b b' upd flows h e =
    let (made, m, e') = >>=-eq-ok (baker_loop hash_key b [] upd) (commit b) (b', flows) e in
    let (same, kept) = commit-eq-ok b b' made flows e' in
    rw kept (
      is_seed_burns_frozen-append b.block.flows flows h (
        subst (λ (fs : List Flow). is_seed_burns_frozen fs ≡ true) same
          (baker_loop-is_seed_burns_frozen hash_key b upd [] made refl m)))
