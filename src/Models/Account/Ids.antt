-- ===== src/Models/Account/Ids.antt =====
-- puller/models/account.go: the balance updates keep the id of the account.
use tezos_index.Common.{◌≡◌, refl, ◌∙◌, arith, true, none, some}
use tezos_index.Models.FlowType.{FlowCategory}
use tezos_index.Models.Flow.{Flow}
use tezos_index.Models.Account.Defs.{Account}
use tezos_index.Models.Account.Update.{
  Update, Movement, update_balance, update_category, finish_update, move_spendable, update_activity,
  update_funded, update_rewards, update_deposits, update_fees, update_spendable, update_delegated,
  movement, cover_outflow, count_transfer, spend,
}
use tezos_index.Models.Account.Rollback.{
  rollback_balance, rollback_category, finish_rollback, rollback_rewards, rollback_deposits,
  rollback_fees, rollback_spendable, rollback_delegated, unmove, unspend, uncount_outflow,
}

move_spendable-row_id :
    (m : Movement) (a : Account) (f : Flow) → (move_spendable m a f).0.row_id ≡ a.row_id
unfolding move_spendable spend count_transfer
move_spendable-row_id Movement.transfer a f = refl
move_spendable-row_id Movement.claim a f = ground arith
move_spendable-row_id Movement.other a f = refl

update_category-row_id :
    (c : FlowCategory) (a : Account) (f : Flow) → (update_category c a f).0.row_id ≡ a.row_id
unfolding update_category update_rewards update_deposits update_fees update_delegated
    update_spendable cover_outflow
update_category-row_id FlowCategory.rewards a f = ground arith
update_category-row_id FlowCategory.deposits a f = ground arith
update_category-row_id FlowCategory.fees a f = ground arith
update_category-row_id FlowCategory.balance a f = move_spendable-row_id (movement f.operation) _ f
update_category-row_id FlowCategory.delegation a f = ground arith
update_category-row_id FlowCategory.invalid a f = refl

finish_update-row_id : (f : Flow) (u : Update) → (finish_update f u).0.row_id ≡ u.0.row_id
unfolding finish_update update_activity update_funded
finish_update-row_id f (a, none) = refl
finish_update-row_id f (a, some e) = refl

pub update_balance-row_id : (f : Flow) (a : Account) → (update_balance a f).0.row_id ≡ a.row_id
unfolding update_balance
update_balance-row_id f a =
    finish_update-row_id f (update_category f.category (record a { is_dirty = true }) f)
    ∙ update_category-row_id f.category (record a { is_dirty = true }) f

unmove-row_id : (m : Movement) (a : Account) (f : Flow) → (unmove m a f).row_id ≡ a.row_id
unfolding unmove
unmove-row_id Movement.transfer a f = refl
unmove-row_id Movement.claim a f = refl
unmove-row_id Movement.other a f = refl

rollback_category-row_id :
    (c : FlowCategory) (a : Account) (f : Flow) → (rollback_category c a f).0.row_id ≡ a.row_id
unfolding rollback_category rollback_rewards rollback_deposits rollback_fees rollback_delegated
    rollback_spendable unspend uncount_outflow
rollback_category-row_id FlowCategory.rewards a f = ground arith
rollback_category-row_id FlowCategory.deposits a f = ground arith
rollback_category-row_id FlowCategory.fees a f = ground arith
rollback_category-row_id FlowCategory.balance a f =
    ground (arith, unmove-row_id (movement f.operation) (uncount_outflow a f) f)
rollback_category-row_id FlowCategory.delegation a f = ground arith
rollback_category-row_id FlowCategory.invalid a f = refl

finish_rollback-row_id : (f : Flow) (u : Update) → (finish_rollback f u).0.row_id ≡ u.0.row_id
unfolding finish_rollback
finish_rollback-row_id f (a, none) = refl
finish_rollback-row_id f (a, some e) = refl

pub rollback_balance-row_id : (f : Flow) (a : Account) → (rollback_balance a f).0.row_id ≡ a.row_id
unfolding rollback_balance
rollback_balance-row_id f a = finish_rollback-row_id f _ ∙ rollback_category-row_id f.category _ f
