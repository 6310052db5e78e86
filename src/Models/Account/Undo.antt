-- ===== src/Models/Account/Undo.antt =====
-- puller/models/account.go: `RollbackBalance` after `UpdateBalance`.
use tezos_index.Common.{
  ◌≡◌, ◌≤◌, ◌<◌, ◌+◌, ◌^◌, arith, refl, true, false, none, some, sym, ◌∙◌, ◌==◌,
}
use tezos_index.Common.Int64.{Int64, IsInt64, IsNonneg, add64, sub64, lt64}
use tezos_index.Models.FlowType.{FlowCategory}
use tezos_index.Models.Flow.{Flow}
use tezos_index.Models.Account.Defs.{Account}
use tezos_index.Models.Account.Books.{SameBooks, IsSound, IsAmounts, sub_account}
use tezos_index.Models.Account.Books.{SameBooks-sub_account}
use tezos_index.Models.Account.Update.{Update, move_spendable, cover_outflow, finish_update}
use tezos_index.Models.Account.Rollback.{unspend, unmove, uncount_outflow, finish_rollback}
use tezos_index.Models.Account.Update.{update_rewards, update_deposits, update_fees}
use tezos_index.Models.Account.Update.{
  update_delegated, update_category, update_balance, Movement, movement, change,
}
use tezos_index.Models.Account.Rollback.{rollback_rewards, rollback_deposits, rollback_fees}
use tezos_index.Models.Account.Rollback.{rollback_delegated, rollback_category, rollback_balance}

-- In the amounts of a flow that fits, nothing wraps around.
fits :
    (x i o : Int64)
    → IsNonneg x
    → IsNonneg i
    → IsNonneg o
    → x + i < 2 ^ 63
    → lt64 x o ≡ false
    → (sub64 (add64 x (sub64 i o)) (sub64 i o) ≡ x) × (lt64 (add64 x (sub64 i o)) i ≡ false)
unfolding add64 sub64 lt64
fits x i o hx hi ho hs h = ground arith

fits_covered :
    (x i o : Int64)
    → IsNonneg x
    → IsNonneg i
    → o ≤ x
    → x + i < 2 ^ 63
    → (sub64 (add64 x (sub64 i o)) (sub64 i o) ≡ x)
      × (lt64 (add64 x (sub64 i o)) (sub64 i o) ≡ false)
      × (lt64 x o ≡ false)
unfolding add64 sub64 lt64
fits_covered x i o hx hi ho hs = ground arith

cancel : (x y : Int64) → IsInt64 x → (sub64 (add64 x y) y ≡ x) × (add64 (sub64 x y) y ≡ x)
unfolding add64 sub64
cancel x y h = omega arith

cancel_twice : (x y z : Int64) → IsInt64 x → (add64 (sub64 (sub64 (add64 x y) z) y) z ≡ x)
unfolding add64 sub64
cancel_twice x y z h = omega arith

module _ (a b : Account) (f : Flow) (sound : IsSound a) (amounts : IsAmounts f) where
  undo_rewards :
      (update_rewards a f).1 ≡ none
      → SameBooks b (update_rewards a f).0
      → a.frozen_rewards + f.amount_in < 2 ^ 63
      → ((rollback_rewards b f).1 ≡ none) × SameBooks (rollback_rewards b f).0 a
  unfolding update_rewards rollback_rewards
  undo_rewards done same bound = ground (
    arith,
    fits a.frozen_rewards f.amount_in f.amount_out,
    cancel a.total_rewards_earned f.amount_in,
    cancel a.total_lost f.amount_out,
    cancel_twice a.total_rewards_earned f.amount_in f.amount_out,
  )

  undo_deposits :
      (update_deposits a f).1 ≡ none
      → SameBooks b (update_deposits a f).0
      → a.frozen_deposits + f.amount_in < 2 ^ 63
      → ((rollback_deposits b f).1 ≡ none) × SameBooks (rollback_deposits b f).0 a
  unfolding update_deposits rollback_deposits
  undo_deposits done same bound =
      ground
        (arith, fits a.frozen_deposits f.amount_in f.amount_out, cancel a.total_lost f.amount_out)

  undo_fees :
      (update_fees a f).1 ≡ none
      → SameBooks b (update_fees a f).0
      → a.frozen_fees + f.amount_in < 2 ^ 63
      → ((rollback_fees b f).1 ≡ none) × SameBooks (rollback_fees b f).0 a
  unfolding update_fees rollback_fees
  undo_fees done same bound = ground (
    arith,
    fits a.frozen_fees f.amount_in f.amount_out,
    cancel a.total_fees_earned f.amount_in,
    cancel a.total_lost f.amount_out,
  )

  undo_delegated :
      (update_delegated a f).1 ≡ none
      → SameBooks b (update_delegated a f).0
      → a.delegated_balance + f.amount_in < 2 ^ 63
      → ((rollback_delegated b f).1 ≡ none) × SameBooks (rollback_delegated b f).0 a
  unfolding update_delegated rollback_delegated
  undo_delegated done same bound = ground (arith, fits a.delegated_balance f.amount_in f.amount_out)

  undo_spendable :
      (m : Movement)
      → (move_spendable m (cover_outflow a f) f).1 ≡ none
      → SameBooks b (move_spendable m (cover_outflow a f) f).0
      → a.spendable_balance + f.amount_in < 2 ^ 63
      → f.amount_out ≤ a.spendable_balance
      → (m ≡ Movement.transfer → (f.is_fee ≡ false) × (f.is_burned ≡ false))
      → (lt64 b.spendable_balance (change f) ≡ false)
        × SameBooks (unspend (unmove m (uncount_outflow b f) f) f) a
  unfolding move_spendable cover_outflow unmove uncount_outflow unspend
  undo_spendable m done same bound covered plain = ground (
    arith,
    plain,
    fits_covered a.spendable_balance f.amount_in f.amount_out,
    cancel a.total_fees_paid f.amount_out,
    cancel a.total_burned f.amount_out,
    cancel a.total_received f.amount_in,
    cancel a.total_sent f.amount_out,
    cancel a.unclaimed_balance f.amount_in,
  )

undo_category :
    (c : FlowCategory) (a b : Account) (f : Flow)
    → IsSound a
    → IsAmounts f
    → sub_account c a + f.amount_in < 2 ^ 63
    → (c ≡ FlowCategory.balance → f.amount_out ≤ a.spendable_balance)
    → (c ≡ FlowCategory.balance
        → movement f.operation ≡ Movement.transfer
        → (f.is_fee ≡ false) × (f.is_burned ≡ false))
    → (update_category c a f).1 ≡ none
    → SameBooks b (update_category c a f).0
    → ((rollback_category c b f).1 ≡ none) × SameBooks (rollback_category c b f).0 a
unfolding update_category rollback_category
undo_category FlowCategory.rewards a b f s m bound covered plain done same =
    undo_rewards a b f s m done same bound
undo_category FlowCategory.deposits a b f s m bound covered plain done same =
    undo_deposits a b f s m done same bound
undo_category FlowCategory.fees a b f s m bound covered plain done same =
    undo_fees a b f s m done same bound
undo_category FlowCategory.balance a b f s m bound covered plain done same =
    let (passed, books) =
      undo_spendable a b f s m (movement f.operation) done same bound (covered refl) (plain refl) in
    rw passed (refl, books)
undo_category FlowCategory.delegation a b f s m bound covered plain done same =
    undo_delegated a b f s m done same bound
undo_category FlowCategory.invalid a b f s m bound covered plain done same = (refl, same)

finish_update-SameBooks :
    (f : Flow) (u : Update) → ((finish_update f u).1 ≡ u.1) × SameBooks (finish_update f u).0 u.0
unfolding finish_update
finish_update-SameBooks f (a, none) = ground arith
finish_update-SameBooks f (a, some e) = ground arith

finish_rollback-SameBooks :
    (f : Flow) (u : Update)
    → ((finish_rollback f u).1 ≡ u.1) × SameBooks (finish_rollback f u).0 u.0
unfolding finish_rollback
finish_rollback-SameBooks f (a, none) = ground arith
finish_rollback-SameBooks f (a, some e) = ground arith

SameBooks-refl : (a : Account) → SameBooks a a
SameBooks-refl a = ground arith

pub SameBooks-trans : {a b c : Account} → SameBooks a b → SameBooks b c → SameBooks a c
SameBooks-trans p q = ground arith

-- The rollback from any account that has the amounts of the updated one, on the conditions below.
pub rollback_balance-SameBooks :
    (a b0 : Account) (f : Flow)
    → IsSound a
    → IsAmounts f
    → sub_account f.category a + f.amount_in < 2 ^ 63
    → (f.category ≡ FlowCategory.balance → f.amount_out ≤ a.spendable_balance)
    → (f.category ≡ FlowCategory.balance
        → movement f.operation ≡ Movement.transfer
        → (f.is_fee ≡ false) × (f.is_burned ≡ false))
    → (update_balance a f).1 ≡ none
    → SameBooks b0 (update_balance a f).0
    → ((rollback_balance b0 f).1 ≡ none) × SameBooks (rollback_balance b0 f).0 a
unfolding update_balance rollback_balance
rollback_balance-SameBooks a b0 f s m bound covered plain done now =
    let a' : Account = record a { is_dirty = true } in
    let untouched : SameBooks a' a = ground arith in
    let fit : sub_account f.category a' + f.amount_in < 2 ^ 63 =
      rw (SameBooks-sub_account f.category untouched) bound in
    let u : Update = update_category f.category a' f in
    let (e, books) = finish_update-SameBooks f u in
    let b : Account = record b0 { is_dirty = true; is_new = b0.first_seen == f.height } in
    let marked : SameBooks b b0 = ground arith in
    let same : SameBooks b u.0 = SameBooks-trans marked (SameBooks-trans now books) in
    let (passed, back) =
      undo_category f.category a' b f (ground arith) m fit covered plain (sym e ∙ done) same in
    let (e', books') = finish_rollback-SameBooks f (rollback_category f.category b f) in
    (e' ∙ passed, SameBooks-trans (SameBooks-trans books' back) untouched)

-- A successful update of an account by a flow is undone by the rollback of that flow: the rollback
-- succeeds too, and every sub-account and running total is back at its value. The conditions: the
-- sub-accounts and the amounts of the flow are not negative, the credit does not overflow the
-- sub-account, an out-flow of the spendable balance is covered by it, and a transaction,
-- origination or airdrop flow is neither a fee nor a burn.
pub rollback_balance-update_balance :
    (a : Account) (f : Flow)
    → IsSound a
    → IsAmounts f
    → sub_account f.category a + f.amount_in < 2 ^ 63
    → (f.category ≡ FlowCategory.balance → f.amount_out ≤ a.spendable_balance)
    → (f.category ≡ FlowCategory.balance
        → movement f.operation ≡ Movement.transfer
        → (f.is_fee ≡ false) × (f.is_burned ≡ false))
    → (update_balance a f).1 ≡ none
    → let b = (update_balance a f).0 in
      ((rollback_balance b f).1 ≡ none) × SameBooks (rollback_balance b f).0 a
rollback_balance-update_balance a f s m bound covered plain done =
    rollback_balance-SameBooks a (update_balance a f).0 f s m bound covered plain done
      (SameBooks-refl (update_balance a f).0)
