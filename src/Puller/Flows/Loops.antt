-- ===== src/Puller/Flows/Loops.antt =====
-- puller/flow.go: what the loops over balance updates compute.
use tezos_index.Common.{ℕ, ◌≡◌, ◌%◌, ◌^◌, arith, refl, sym, ◌∙◌, Bool, List, [], ◌∷◌, ◌++◌}
use tezos_index.Common.{if◌then◌else◌}
use tezos_index.Common.Int64.{Int64, IsInt64, add64, sub64, neg64, is_neg, add64-IsInt64}
use tezos_index.Rpc.Balance.{BalanceUpdate, BalanceUpdates, FreezerUpdate}
use tezos_index.Models.FlowType.{FlowCategory, FlowType}
use tezos_index.Models.Flow.{Flow}
use tezos_index.Models.Account.{Account}
use tezos_index.Models.Block.{Block}
use tezos_index.Puller.Builder.{ok}
use tezos_index.Puller.Builder.Laws.{>>=-eq-ok}
use tezos_index.Puller.Flows.Parts.{fee_flow, baker_fee_flow, fee_loop, moved_loop}
use tezos_index.Puller.Flows.Sums.{value, net_of, contract_total, freezer_total, is_fees, credited}
use tezos_index.Puller.Flows.Sums.{
  debited, value-append, net_of-append, value-IsInt64, net_of-IsInt64, totals-IsInt64,
}

pub moved_loop-eq :
    (moved spent : Int64) (us : BalanceUpdates)
    → IsInt64 moved
    → IsInt64 spent
    → moved_loop moved spent us ≡ (add64 moved (credited us), add64 spent (debited us))
unfolding moved_loop credited debited add64
moved_loop-eq moved spent [] h k = ground arith
moved_loop-eq moved spent (BalanceUpdate.contract u ∷ us) h k = ground (
  arith,
  moved_loop-eq (if is_neg u.change then moved else add64 moved u.change)
      (if is_neg u.change then add64 spent (neg64 u.change) else spent) us,
  totals-IsInt64 us,
)
moved_loop-eq moved spent (BalanceUpdate.freezer u ∷ us) h k = moved_loop-eq moved spent us h k
moved_loop-eq moved spent (BalanceUpdate.generic c ∷ us) h k = moved_loop-eq moved spent us h k

baker_fee_flow-value :
    (b : Block) (src : Account) (op : FlowType) (marked : Bool) (u : FreezerUpdate) (fs : List Flow)
    → baker_fee_flow b src op marked u ≡ ok fs
    → value fs ≡ (if is_fees u.category then u.change % 2 ^ 64 else 0)
unfolding baker_fee_flow value add64 sub64
baker_fee_flow-value b src op marked u fs e = ground arith

fee_flow-value :
    (b : Block) (src : Account) (op : FlowType) (x : Int64)
    → value (fee_flow b src op x ∷ []) ≡ x % 2 ^ 64
unfolding fee_flow value add64 sub64 neg64
fee_flow-value b src op x = ground arith

fee_flow-net_of :
    (b : Block) (src : Account) (op : FlowType) (x : Int64) (id : ℕ)
    → (net_of src.row_id FlowCategory.balance (fee_flow b src op x ∷ []) ≡ x % 2 ^ 64)
      × (net_of id FlowCategory.delegation (fee_flow b src op x ∷ []) ≡ 0)
unfolding fee_flow net_of add64 sub64 neg64
fee_flow-net_of b src op x id = ground arith

baker_fee_flow-net_of :
    (b : Block) (src : Account) (op : FlowType) (marked : Bool) (u : FreezerUpdate) (fs : List Flow)
    (id : ℕ)
    → baker_fee_flow b src op marked u ≡ ok fs
    → (net_of src.row_id FlowCategory.balance fs ≡ 0) × (net_of id FlowCategory.delegation fs ≡ 0)
unfolding baker_fee_flow net_of add64 sub64
baker_fee_flow-net_of b src op marked u fs id e = ground arith

-- What the fee loop has added to `flows` and `fees` when it ends.
pub record FeeSums (src : Account) (flows flows' : List Flow) (fees fees' : Int64)
    (us : BalanceUpdates) : Type 0 where
  pub value_eq :
      value flows' ≡ add64 (value flows) (add64 (contract_total us) (freezer_total is_fees us))
  pub fees_eq : fees' ≡ sub64 fees (contract_total us)
  pub source :
      net_of src.row_id FlowCategory.balance flows'
      ≡ add64 (net_of src.row_id FlowCategory.balance flows) (contract_total us)
  pub delegated :
      (id : ℕ) → net_of id FlowCategory.delegation flows' ≡ net_of id FlowCategory.delegation flows

-- The laws of a sum that grows at its right end.
regroup : (x c t : Int64) → add64 (add64 x (c % 2 ^ 64)) t ≡ add64 x (add64 c t)
unfolding add64
regroup x c t = omega arith

regroup_left :
    (x c t r : Int64) → add64 (add64 x (c % 2 ^ 64)) (add64 t r) ≡ add64 x (add64 (add64 c t) r)
unfolding add64
regroup_left x c t r = omega arith

regroup_if :
    (p : Bool) (x c t r : Int64)
    → add64 (add64 x (if p then c % 2 ^ 64 else 0)) (add64 t r)
      ≡ add64 x (add64 t (add64 (if p then c else 0) r))
unfolding add64
regroup_if p x c t r = ground arith

regroup_fees : (x c t : Int64) → sub64 (add64 x (neg64 c)) t ≡ sub64 x (add64 c t)
unfolding add64 sub64 neg64
regroup_fees x c t = omega arith

neutral : (x : Int64) → IsInt64 x → (add64 x 0 ≡ x) × (sub64 x 0 ≡ x) × (add64 x (add64 0 0) ≡ x)
unfolding add64 sub64
neutral x h = omega arith

module _ (b : Block) (src : Account) (op : FlowType) (marked : Bool) where
  fee_loop-sums :
      (us : BalanceUpdates) (flows flows' : List Flow) (fees fees' : Int64)
      → IsInt64 fees
      → fee_loop b src op marked flows fees us ≡ ok (flows', fees')
      → FeeSums src flows flows' fees fees' us
  unfolding fee_loop contract_total freezer_total
  fee_loop-sums [] flows flows' fees fees' h e =
      let kept : flows ≡ flows' = cc in
      let paid : fees ≡ fees' = cc in
      rw (← kept, ← paid)
        (record {
          value_eq = sym (neutral (value flows) (value-IsInt64 flows)).2;
          fees_eq = sym (neutral fees h).1;
          source = sym (neutral _ (net_of-IsInt64 _ _ flows)).0;
          delegated = λ id. refl;
        })
  fee_loop-sums (BalanceUpdate.contract u ∷ us) flows flows' fees fees' h e =
      let f = fee_flow b src op u.change in
      let r =
        fee_loop-sums us (flows ++ (f ∷ [])) flows' (add64 fees (neg64 u.change)) fees'
          (add64-IsInt64 _ _) e in
      record {
        value_eq =
            r.value_eq
            ∙ rw (value-append flows (f ∷ []), fee_flow-value b src op u.change)
                (regroup_left _ _ _ _);
        fees_eq = r.fees_eq ∙ regroup_fees fees u.change (contract_total us);
        source =
            r.source
            ∙ rw
                (
                  net_of-append src.row_id FlowCategory.balance flows (f ∷ []),
                  (fee_flow-net_of b src op u.change 0).0,
                )
                (regroup _ _ _);
        delegated = λ id.
            r.delegated id
            ∙ rw
                (
                  net_of-append id FlowCategory.delegation flows (f ∷ []),
                  (fee_flow-net_of b src op u.change id).1,
                )
                (neutral _ (net_of-IsInt64 id _ flows)).0;
      }
  fee_loop-sums (BalanceUpdate.freezer u ∷ us) flows flows' fees fees' h e =
      let (fs, m, e') = >>=-eq-ok (baker_fee_flow b src op marked u) _ _ e in
      let r = fee_loop-sums us (flows ++ fs) flows' fees fees' h e' in
      record {
        value_eq =
            r.value_eq
            ∙ rw (value-append flows fs, baker_fee_flow-value b src op marked u fs m)
                (regroup_if (is_fees u.category) _ _ _ _);
        fees_eq = r.fees_eq;
        source =
            r.source
            ∙ rw
                (
                  net_of-append src.row_id FlowCategory.balance flows fs,
                  (baker_fee_flow-net_of b src op marked u fs 0 m).0,
                )
                (rw (neutral _ (net_of-IsInt64 src.row_id FlowCategory.balance flows)).0);
        delegated = λ id.
            r.delegated id
            ∙ rw
                (
                  net_of-append id FlowCategory.delegation flows fs,
                  (baker_fee_flow-net_of b src op marked u fs id m).1,
                )
                (neutral _ (net_of-IsInt64 id _ flows)).0;
      }
  fee_loop-sums (BalanceUpdate.generic c ∷ us) flows flows' fees fees' h e =
      let r = fee_loop-sums us flows flows' fees fees' h e in
      record {
        value_eq = r.value_eq;
        fees_eq = r.fees_eq;
        source = r.source;
        delegated = r.delegated;
      }

-- The fee loop as it is called, with nothing made and nothing paid yet.
pub record FeesOf (src : Account) (flows : List Flow) (fees : Int64) (us : BalanceUpdates)
    : Type 0 where
  pub value_eq : value flows ≡ add64 (contract_total us) (freezer_total is_fees us)
  pub fees_eq : fees ≡ neg64 (contract_total us)
  pub source : net_of src.row_id FlowCategory.balance flows ≡ contract_total us
  pub delegated : (id : ℕ) → net_of id FlowCategory.delegation flows ≡ 0

from_zero :
    (x y : Int64)
    → IsInt64 x
    → (add64 0 x ≡ x) × (add64 0 (add64 x y) ≡ add64 x y) × (sub64 0 x ≡ neg64 x)
unfolding add64 sub64 neg64
from_zero x y h = omega arith

pub fee_loop-FeesOf :
    (b : Block) (src : Account) (op : FlowType) (marked : Bool) (us : BalanceUpdates)
    (flows : List Flow) (fees : Int64)
    → fee_loop b src op marked [] 0 us ≡ ok (flows, fees)
    → FeesOf src flows fees us
unfolding value net_of
fee_loop-FeesOf b src op marked us flows fees e =
    let r = fee_loop-sums b src op marked us [] flows 0 fees (omega arith) e in
    let laws = from_zero (contract_total us) (freezer_total is_fees us) (totals-IsInt64 us).0 in
    record {
      value_eq = r.value_eq ∙ laws.1;
      fees_eq = r.fees_eq ∙ laws.2;
      source = r.source ∙ laws.0;
      delegated = r.delegated;
    }
