-- ===== src/Models/Account/Drift.antt =====
-- puller/models/account.go: fees and burns in `UpdateBalance` and in `RollbackBalance`.
use tezos_index.Common.{◌≡◌, ◌⊎◌, ◌≤◌, arith, true, false, none}
use tezos_index.Common.Int64.{Int64, IsNonneg, add64, sub64, lt64}
use tezos_index.Models.FlowType.{FlowCategory}
use tezos_index.Models.Flow.{Flow}
use tezos_index.Models.Account.Defs.{Account}
use tezos_index.Models.Account.Books.{IsSound, IsAmounts}
use tezos_index.Models.Account.Update.{Movement, movement}
use tezos_index.Models.Account.Update.{update_balance}
use tezos_index.Models.Account.Rollback.{rollback_balance}

undercut :
    (x o : Int64)
    → IsNonneg x
    → o ≤ x
    → (lt64 (add64 x (sub64 0 o)) (sub64 0 o) ≡ false) × (lt64 x o ≡ false)
unfolding add64 sub64 lt64
undercut x o hx ho = ground arith

-- `UpdateBalance` does not count a fee or a burn of a transaction, origination or airdrop as
-- sent; `RollbackBalance` subtracts it. So update and rollback together lower the total by the
-- amount, for every covered fee or burn out-flow that comes with no in-flow.
pub rollback_balance-total_sent :
    (a : Account) (f : Flow)
    → IsSound a
    → IsAmounts f
    → f.category ≡ FlowCategory.balance
    → movement f.operation ≡ Movement.transfer
    → (f.is_fee ≡ true) ⊎ (f.is_burned ≡ true)
    → f.amount_in ≡ 0
    → f.amount_out ≤ a.spendable_balance
    → let b = (update_balance a f).0 in
      (b.total_sent ≡ a.total_sent)
      × ((rollback_balance b f).1 ≡ none)
      × ((rollback_balance b f).0.total_sent ≡ sub64 a.total_sent f.amount_out)
unfolding update_balance rollback_balance
rollback_balance-total_sent a f s m c t e i h =
    rw (c, t, i) (ground (arith, undercut a.spendable_balance f.amount_out))
