-- ===== src/Models/Account/Rollback.antt =====
-- puller/models/account.go: `RollbackBalance`, which takes the effect of one flow back.
use tezos_index.Common.{true, List, [], ◌∷◌, none, some, ◌==◌}
use tezos_index.Common.{if◌then◌else◌}
use tezos_index.Common.Int64.{add64, sub64, lt64}
use tezos_index.Utils.MinMax.{min64, max64_n}
use tezos_index.Models.FlowType.{FlowCategory}
use tezos_index.Models.Flow.{Flow}
use tezos_index.Models.Account.Defs.{Account}
use tezos_index.Models.Account.Update.{BalanceError, Update, change, is_denounciation, Movement}
use tezos_index.Models.Account.Update.{movement, has_funds}

-- case FlowCategoryRewards
unfoldable pub rollback_rewards : Account → Flow → Update
rollback_rewards a f =
    if lt64 a.frozen_rewards f.amount_in
    then (a, some BalanceError.frozen_rewards)
    else let slashed = is_denounciation f.operation in
      let earned = sub64 a.total_rewards_earned f.amount_in in
      (
        record a {
          total_rewards_earned = if slashed then add64 earned f.amount_out else earned;
          frozen_rewards = sub64 a.frozen_rewards (change f);
          total_lost = if slashed then sub64 a.total_lost f.amount_out else a.total_lost;
        },
        none,
      )

-- case FlowCategoryDeposits
unfoldable pub rollback_deposits : Account → Flow → Update
rollback_deposits a f =
    if lt64 a.frozen_deposits f.amount_in then (a, some BalanceError.frozen_deposits) else (
      record a {
        frozen_deposits = sub64 a.frozen_deposits (change f);
        total_lost =
            if is_denounciation f.operation then sub64 a.total_lost f.amount_out else a.total_lost;
      },
      none,
    )

-- case FlowCategoryFees
unfoldable pub rollback_fees : Account → Flow → Update
rollback_fees a f = if lt64 a.frozen_fees f.amount_in then (a, some BalanceError.frozen_fees) else (
  record a {
    total_fees_earned =
        if f.is_frozen then sub64 a.total_fees_earned f.amount_in else a.total_fees_earned;
    total_lost =
        if is_denounciation f.operation then sub64 a.total_lost f.amount_out else a.total_lost;
    frozen_fees = sub64 a.frozen_fees (change f);
  },
  none,
)

unfoldable pub uncount_outflow : Account → Flow → Account
uncount_outflow a f = record a {
  total_fees_paid = if f.is_fee then sub64 a.total_fees_paid f.amount_out else a.total_fees_paid;
  total_burned = if f.is_burned then sub64 a.total_burned f.amount_out else a.total_burned;
}

-- The switch on the operation. Unlike the update, a fee or a burn is no exception here.
unfoldable pub unmove : Movement → Account → Flow → Account
unmove Movement.transfer a f = record a {
  total_received = sub64 a.total_received f.amount_in;
  total_sent = sub64 a.total_sent f.amount_out;
}
unmove Movement.claim a f = record a { unclaimed_balance = add64 a.unclaimed_balance f.amount_in }
unmove Movement.other a f = a

unfoldable pub unspend : Account → Flow → Account
unspend a f = record a { spendable_balance = sub64 a.spendable_balance (change f) }

-- case FlowCategoryBalance
unfoldable pub rollback_spendable : Account → Flow → Update
unfolding uncount_outflow unmove unspend
rollback_spendable a f =
    if lt64 a.spendable_balance (change f)
    then (a, some BalanceError.balance)
    else (unspend (unmove (movement f.operation) (uncount_outflow a f) f) f, none)

-- case FlowCategoryDelegation
unfoldable pub rollback_delegated : Account → Flow → Update
rollback_delegated a f =
    if lt64 a.delegated_balance f.amount_in
    then (a, some BalanceError.delegated)
    else (record a { delegated_balance = sub64 a.delegated_balance (change f) }, none)

-- The switch on the category.
unfoldable pub rollback_category : FlowCategory → Account → Flow → Update
unfolding rollback_rewards rollback_deposits rollback_fees rollback_spendable rollback_delegated
rollback_category FlowCategory.rewards a f = rollback_rewards a f
rollback_category FlowCategory.deposits a f = rollback_deposits a f
rollback_category FlowCategory.fees a f = rollback_fees a f
rollback_category FlowCategory.balance a f = rollback_spendable a f
rollback_category FlowCategory.delegation a f = rollback_delegated a f
rollback_category FlowCategory.invalid a f = (a, none)

-- What follows the switch, unless it returned an error.
unfoldable pub finish_rollback : Flow → Update → Update
unfolding has_funds min64 max64_n
finish_rollback f (a, none) = (
  record a {
    is_funded = has_funds a;
    last_seen = min64 f.height (max64_n (a.last_in ∷ a.last_out ∷ []));
  },
  none,
)
finish_rollback f (a, some e) = (a, some e)

-- `RollbackBalance`
unfoldable pub rollback_balance : Account → Flow → Update
unfolding rollback_category finish_rollback
rollback_balance a f = finish_rollback f (
    rollback_category f.category (record a { is_dirty = true; is_new = a.first_seen == f.height })
      f)

-- `RollbackBalanceN`: the first error ends the loop.
unfoldable pub rollback_balance_n : Account → List Flow → Update
unfolding rollback_balance
rollback_balance_n a [] = (a, none)
rollback_balance_n a (f ∷ fs) =
    let (a', e) = rollback_balance a f in
    elim e [ none ↦ rollback_balance_n a' fs | some x ↦ (a', some x) ]
