-- ===== src/Models/Account/Books.antt =====
-- The amounts of an account (puller/models/account.go), and when they are in order.
use tezos_index.Common.{◌≡◌, refl}
use tezos_index.Common.Int64.{Int64, IsInt64, IsNonneg}
use tezos_index.Models.FlowType.{FlowCategory}
use tezos_index.Models.Flow.{Flow}
use tezos_index.Models.Account.Defs.{Account}

-- Two accounts hold the same amounts in every sub-account and every running total.
pub record SameBooks (a b : Account) : Type 0 where
  pub frozen_deposits : a.frozen_deposits ≡ b.frozen_deposits
  pub frozen_rewards : a.frozen_rewards ≡ b.frozen_rewards
  pub frozen_fees : a.frozen_fees ≡ b.frozen_fees
  pub unclaimed_balance : a.unclaimed_balance ≡ b.unclaimed_balance
  pub spendable_balance : a.spendable_balance ≡ b.spendable_balance
  pub delegated_balance : a.delegated_balance ≡ b.delegated_balance
  pub total_received : a.total_received ≡ b.total_received
  pub total_sent : a.total_sent ≡ b.total_sent
  pub total_burned : a.total_burned ≡ b.total_burned
  pub total_fees_paid : a.total_fees_paid ≡ b.total_fees_paid
  pub total_rewards_earned : a.total_rewards_earned ≡ b.total_rewards_earned
  pub total_fees_earned : a.total_fees_earned ≡ b.total_fees_earned
  pub total_lost : a.total_lost ≡ b.total_lost

-- No sub-account is negative, and the totals are int64 values.
pub record IsSound (a : Account) : Type 0 where
  pub frozen_deposits : IsNonneg a.frozen_deposits
  pub frozen_rewards : IsNonneg a.frozen_rewards
  pub frozen_fees : IsNonneg a.frozen_fees
  pub unclaimed_balance : IsNonneg a.unclaimed_balance
  pub spendable_balance : IsNonneg a.spendable_balance
  pub delegated_balance : IsNonneg a.delegated_balance
  pub total_received : IsInt64 a.total_received
  pub total_sent : IsInt64 a.total_sent
  pub total_burned : IsInt64 a.total_burned
  pub total_fees_paid : IsInt64 a.total_fees_paid
  pub total_rewards_earned : IsInt64 a.total_rewards_earned
  pub total_fees_earned : IsInt64 a.total_fees_earned
  pub total_lost : IsInt64 a.total_lost

-- The amounts of a flow are not negative.
pub record IsAmounts (f : Flow) : Type 0 where
  pub amount_in : IsNonneg f.amount_in
  pub amount_out : IsNonneg f.amount_out

-- The sub-account that a flow of a category changes.
abbrev pub sub_account : FlowCategory → Account → Int64
sub_account FlowCategory.rewards a = a.frozen_rewards
sub_account FlowCategory.deposits a = a.frozen_deposits
sub_account FlowCategory.fees a = a.frozen_fees
sub_account FlowCategory.balance a = a.spendable_balance
sub_account FlowCategory.delegation a = a.delegated_balance
sub_account FlowCategory.invalid a = 0

pub SameBooks-sub_account :
    (c : FlowCategory) {a b : Account} → SameBooks a b → sub_account c a ≡ sub_account c b
SameBooks-sub_account FlowCategory.rewards s = s.frozen_rewards
SameBooks-sub_account FlowCategory.deposits s = s.frozen_deposits
SameBooks-sub_account FlowCategory.fees s = s.frozen_fees
SameBooks-sub_account FlowCategory.balance s = s.spendable_balance
SameBooks-sub_account FlowCategory.delegation s = s.delegated_balance
SameBooks-sub_account FlowCategory.invalid s = refl
