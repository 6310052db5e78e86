-- ===== src/Puller/Flows/Sums.antt =====
-- puller/flow.go: sums over flows, and over the balance updates that they are made from.
use tezos_index.Common.{ℕ, ◌≡◌, arith, Bool, true, false, ◌&&◌, List, [], ◌∷◌, ◌++◌}
use tezos_index.Common.{◌==◌, if◌then◌else◌}
use tezos_index.Common.Int64.{Int64, IsInt64, add64, sub64, neg64, is_neg}
use tezos_index.Rpc.Balance.{BalanceUpdate, BalanceUpdates, FreezerCategory}
use tezos_index.Models.FlowType.{FlowCategory}
use tezos_index.Models.Flow.{Flow}
use tezos_index.Models.Account.Update.{change, is_delegation}
use tezos_index.Models.Account.Ledger.{same_category}

-- What flows add to the coins that accounts own: in-flows less out-flows. Delegated balances are
-- coins of other accounts, so they do not count.
unfoldable pub value : List Flow → Int64
value [] = 0
value (f ∷ fs) = add64 (if is_delegation f.category then 0 else change f) (value fs)

-- What flows add to one sub-account of one account.
unfoldable pub net_of : ℕ → FlowCategory → List Flow → Int64
net_of id c [] = 0
net_of id c (f ∷ fs) =
    add64 (if f.account_id == id && same_category f.category c then change f else 0)
      (net_of id c fs)

pub value-IsInt64 : (fs : List Flow) → IsInt64 (value fs)
unfolding value add64
value-IsInt64 [] = omega arith
value-IsInt64 (f ∷ fs) = omega arith

pub net_of-IsInt64 : (id : ℕ) (c : FlowCategory) (fs : List Flow) → IsInt64 (net_of id c fs)
unfolding net_of add64
net_of-IsInt64 id c [] = omega arith
net_of-IsInt64 id c (f ∷ fs) = omega arith

pub value-append : (fs gs : List Flow) → value (fs ++ gs) ≡ add64 (value fs) (value gs)
unfolding value add64
value-append [] gs = omega (arith, value-IsInt64 gs)
value-append (f ∷ fs) gs = omega (arith, value-append fs gs)

pub net_of-append :
    (id : ℕ) (c : FlowCategory) (fs gs : List Flow)
    → net_of id c (fs ++ gs) ≡ add64 (net_of id c fs) (net_of id c gs)
unfolding net_of add64
net_of-append id c [] gs = omega (arith, net_of-IsInt64 id c gs)
net_of-append id c (f ∷ fs) gs = omega (arith, net_of-append id c fs gs)

-- The changes of the contract updates of a list, summed.
unfoldable pub contract_total : BalanceUpdates → Int64
contract_total [] = 0
contract_total (BalanceUpdate.contract u ∷ us) = add64 u.change (contract_total us)
contract_total (BalanceUpdate.freezer u ∷ us) = contract_total us
contract_total (BalanceUpdate.generic c ∷ us) = contract_total us

-- The changes of the freezer updates of some categories, summed.
unfoldable pub freezer_total : (FreezerCategory → Bool) → BalanceUpdates → Int64
freezer_total p [] = 0
freezer_total p (BalanceUpdate.contract u ∷ us) = freezer_total p us
freezer_total p (BalanceUpdate.freezer u ∷ us) =
    add64 (if p u.category then u.change else 0) (freezer_total p us)
freezer_total p (BalanceUpdate.generic c ∷ us) = freezer_total p us

abbrev pub is_fees : FreezerCategory → Bool
is_fees FreezerCategory.fees = true
is_fees _ = false

-- What the contract updates credit, and what they debit.
unfoldable pub credited : BalanceUpdates → Int64
credited [] = 0
credited (BalanceUpdate.contract u ∷ us) =
    add64 (if is_neg u.change then 0 else u.change) (credited us)
credited (BalanceUpdate.freezer u ∷ us) = credited us
credited (BalanceUpdate.generic c ∷ us) = credited us

unfoldable pub debited : BalanceUpdates → Int64
debited [] = 0
debited (BalanceUpdate.contract u ∷ us) =
    add64 (if is_neg u.change then neg64 u.change else 0) (debited us)
debited (BalanceUpdate.freezer u ∷ us) = debited us
debited (BalanceUpdate.generic c ∷ us) = debited us

pub totals-IsInt64 :
    (us : BalanceUpdates)
    → IsInt64 (contract_total us) × IsInt64 (credited us) × IsInt64 (debited us)
unfolding contract_total credited debited add64
totals-IsInt64 [] = omega arith
totals-IsInt64 (BalanceUpdate.contract u ∷ us) = omega arith
totals-IsInt64 (BalanceUpdate.freezer u ∷ us) = totals-IsInt64 us
totals-IsInt64 (BalanceUpdate.generic c ∷ us) = totals-IsInt64 us

pub contract_total-eq : (us : BalanceUpdates) → contract_total us ≡ sub64 (credited us) (debited us)
unfolding contract_total credited debited add64 sub64 neg64
contract_total-eq [] = omega arith
contract_total-eq (BalanceUpdate.contract u ∷ us) =
    ground (arith, contract_total-eq us, totals-IsInt64 us)
contract_total-eq (BalanceUpdate.freezer u ∷ us) = contract_total-eq us
contract_total-eq (BalanceUpdate.generic c ∷ us) = contract_total-eq us
