-- ===== src/Models/Account/Sound.antt =====
-- puller/models/account.go: `UpdateBalance` and the sign of the sub-accounts.
use tezos_index.Common.{◌≡◌, ◌<◌, ◌+◌, ◌^◌, arith, refl, true, false, none, some}
use tezos_index.Common.Int64.{Int64, IsInt64, IsNonneg, add64, sub64, lt64}
use tezos_index.Models.FlowType.{FlowCategory}
use tezos_index.Models.Flow.{Flow}
use tezos_index.Models.Account.Defs.{Account}
use tezos_index.Models.Account.Books.{
  IsSound, IsAmounts, sub_account, SameBooks, SameBooks-sub_account,
}
use tezos_index.Models.Account.Update.{Update, update_balance, update_category, finish_update}
use tezos_index.Models.Account.Update.{update_rewards, update_deposits, update_fees}
use tezos_index.Models.Account.Update.{update_delegated, Movement, movement}
use tezos_index.Models.Account.Update.{move_spendable, cover_outflow}

-- A balance that covers an out-flow stays at zero or more.
stays :
    (x i o : Int64)
    → IsNonneg x
    → IsNonneg i
    → IsNonneg o
    → x + i < 2 ^ 63
    → lt64 x o ≡ false
    → IsNonneg (add64 x (sub64 i o))
unfolding add64 sub64 lt64
stays x i o hx hi ho hs h = ground arith

falls : (x i : Int64) → IsNonneg x → IsNonneg i → lt64 x i ≡ false → IsNonneg (sub64 x i)
unfolding sub64 lt64
falls x i hx hi h = ground arith

lt64_self : (x : Int64) → lt64 x x ≡ false
unfolding lt64
lt64_self x = ground arith

wraps : (x y : Int64) → IsInt64 (add64 x y) × IsInt64 (sub64 x y)
unfolding add64 sub64
wraps x y = omega arith

module _ (a : Account) (f : Flow) (s : IsSound a) (m : IsAmounts f) where
  update_rewards-IsSound : a.frozen_rewards + f.amount_in < 2 ^ 63 → IsSound (update_rewards a f).0
  unfolding update_rewards
  update_rewards-IsSound bound = ground (
    arith,
    stays a.frozen_rewards f.amount_in f.amount_out,
    wraps a.total_rewards_earned f.amount_in,
    wraps (add64 a.total_rewards_earned f.amount_in) f.amount_out,
    wraps a.total_lost f.amount_out,
  )

  update_deposits-IsSound :
      a.frozen_deposits + f.amount_in < 2 ^ 63 → IsSound (update_deposits a f).0
  unfolding update_deposits
  update_deposits-IsSound bound =
      ground
        (arith, stays a.frozen_deposits f.amount_in f.amount_out, wraps a.total_lost f.amount_out)

  update_fees-IsSound : a.frozen_fees + f.amount_in < 2 ^ 63 → IsSound (update_fees a f).0
  unfolding update_fees
  update_fees-IsSound bound = ground (
    arith,
    stays a.frozen_fees f.amount_in f.amount_out,
    wraps a.total_fees_earned f.amount_in,
    wraps a.total_lost f.amount_out,
  )

  update_delegated-IsSound :
      a.delegated_balance + f.amount_in < 2 ^ 63 → IsSound (update_delegated a f).0
  unfolding update_delegated
  update_delegated-IsSound bound =
      ground (arith, stays a.delegated_balance f.amount_in f.amount_out)

  cover_outflow-IsSound :
      a.spendable_balance + f.amount_in < 2 ^ 63
      → f.amount_out + f.amount_in < 2 ^ 63
      → IsSound (cover_outflow a f)
        × (lt64 (cover_outflow a f).spendable_balance f.amount_out ≡ false)
        × ((cover_outflow a f).spendable_balance + f.amount_in < 2 ^ 63)
  unfolding cover_outflow
  cover_outflow-IsSound bound room = ground (
    arith,
    lt64_self f.amount_out,
    wraps a.total_fees_paid f.amount_out,
    wraps a.total_burned f.amount_out,
  )

module _ (a : Account) (f : Flow) (s : IsSound a) (m : IsAmounts f) where
  move_spendable-IsSound :
      (v : Movement)
      → lt64 a.spendable_balance f.amount_out ≡ false
      → a.spendable_balance + f.amount_in < 2 ^ 63
      → IsSound (move_spendable v a f).0
  unfolding move_spendable
  move_spendable-IsSound v covered bound = ground (
    arith,
    stays a.spendable_balance f.amount_in f.amount_out,
    falls a.unclaimed_balance f.amount_in,
    wraps a.total_received f.amount_in,
    wraps a.total_sent f.amount_out,
  )

update_category-IsSound :
    (c : FlowCategory) (a : Account) (f : Flow)
    → IsSound a
    → IsAmounts f
    → sub_account c a + f.amount_in < 2 ^ 63
    → (c ≡ FlowCategory.balance → f.amount_out + f.amount_in < 2 ^ 63)
    → IsSound (update_category c a f).0
unfolding update_category
update_category-IsSound FlowCategory.rewards a f s m bound room =
    update_rewards-IsSound a f s m bound
update_category-IsSound FlowCategory.deposits a f s m bound room =
    update_deposits-IsSound a f s m bound
update_category-IsSound FlowCategory.fees a f s m bound room = update_fees-IsSound a f s m bound
update_category-IsSound FlowCategory.balance a f s m bound room =
    let (sound, covered, fit) = cover_outflow-IsSound a f s m bound (room refl) in
    move_spendable-IsSound (cover_outflow a f) f sound m (movement f.operation) covered fit
update_category-IsSound FlowCategory.delegation a f s m bound room =
    update_delegated-IsSound a f s m bound
update_category-IsSound FlowCategory.invalid a f s m bound room = s

finish_update-IsSound : (f : Flow) (u : Update) → IsSound u.0 → IsSound (finish_update f u).0
unfolding finish_update
finish_update-IsSound f (a, none) s = ground arith
finish_update-IsSound f (a, some e) s = s

-- Where no sub-account is negative, none is after an update, whether it succeeds or returns an
-- error, and the totals are int64 values. The conditions: the amounts of the flow are not
-- negative, the in-flow does not overflow the sub-account, and in the spendable balance the two
-- amounts together do not overflow.
pub update_balance-IsSound :
    (a : Account) (f : Flow)
    → IsSound a
    → IsAmounts f
    → sub_account f.category a + f.amount_in < 2 ^ 63
    → (f.category ≡ FlowCategory.balance → f.amount_out + f.amount_in < 2 ^ 63)
    → IsSound (update_balance a f).0
unfolding update_balance
update_balance-IsSound a f s m bound room =
    let a' : Account = record a { is_dirty = true } in
    let untouched : SameBooks a' a = ground arith in
    finish_update-IsSound f (update_category f.category a' f) (
      update_category-IsSound f.category a' f (ground arith) m
        (rw (SameBooks-sub_account f.category untouched) bound) room)
