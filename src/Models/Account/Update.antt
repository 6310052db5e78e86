-- ===== src/Models/Account/Update.antt =====
-- puller/models/account.go: `UpdateBalance`, the effect of one flow on its account. Go changes the
-- account through a pointer, also where it goes on to return an error: the account comes back
-- beside the error.
use tezos_index.Common.{Bool, true, false, not, ◌&&◌, List, [], ◌∷◌, Option, none, some, ◌==◌}
use tezos_index.Common.{if◌then◌else◌}
use tezos_index.Common.Int64.{Int64, add64, sub64, lt64}
use tezos_index.Utils.MinMax.{max64, max64_n, nonzero_min64}
use tezos_index.Models.FlowType.{FlowCategory, FlowType}
use tezos_index.Models.Flow.{Flow}
use tezos_index.Models.Account.Defs.{Account, frozen_balance}

-- The sub-account that is too small for a flow. The text of the error is not modelled.
pub data BalanceError : Type 0 where
  frozen_rewards frozen_deposits frozen_fees balance unclaimed delegated : BalanceError

abbrev pub Update : Type 0
Update = Account × Option BalanceError

-- `f.AmountIn - f.AmountOut`
abbrev pub change : Flow → Int64
change f = sub64 f.amount_in f.amount_out

abbrev pub is_denounciation : FlowType → Bool
is_denounciation FlowType.denounciation = true
is_denounciation _ = false

abbrev pub is_internal : FlowType → Bool
is_internal FlowType.internal = true
is_internal _ = false

abbrev pub is_delegation : FlowCategory → Bool
is_delegation FlowCategory.delegation = true
is_delegation _ = false

-- The cases of the switch on the operation of a flow of the spendable balance.
pub data Movement : Type 0 where
  transfer claim other : Movement

abbrev pub movement : FlowType → Movement
movement FlowType.transaction = Movement.transfer
movement FlowType.origination = Movement.transfer
movement FlowType.airdrop = Movement.transfer
movement FlowType.vest = Movement.claim
movement FlowType.activation = Movement.claim
movement _ = Movement.other

-- case FlowCategoryRewards
unfoldable pub update_rewards : Account → Flow → Update
update_rewards a f =
    if lt64 a.frozen_rewards f.amount_out
    then (a, some BalanceError.frozen_rewards)
    else let slashed = is_denounciation f.operation in
      let earned = add64 a.total_rewards_earned f.amount_in in
      (
        record a {
          total_rewards_earned = if slashed then sub64 earned f.amount_out else earned;
          frozen_rewards = add64 a.frozen_rewards (change f);
          total_lost = if slashed then add64 a.total_lost f.amount_out else a.total_lost;
        },
        none,
      )

-- case FlowCategoryDeposits
unfoldable pub update_deposits : Account → Flow → Update
update_deposits a f =
    if lt64 a.frozen_deposits f.amount_out then (a, some BalanceError.frozen_deposits) else (
      record a {
        frozen_deposits = add64 a.frozen_deposits (change f);
        total_lost =
            if is_denounciation f.operation then add64 a.total_lost f.amount_out else a.total_lost;
      },
      none,
    )

-- case FlowCategoryFees
unfoldable pub update_fees : Account → Flow → Update
update_fees a f = if lt64 a.frozen_fees f.amount_out then (a, some BalanceError.frozen_fees) else (
  record a {
    total_fees_earned =
        if f.is_frozen then add64 a.total_fees_earned f.amount_in else a.total_fees_earned;
    total_lost =
        if is_denounciation f.operation then add64 a.total_lost f.amount_out else a.total_lost;
    frozen_fees = add64 a.frozen_fees (change f);
  },
  none,
)

-- The balance is raised to the outgoing amount where it is smaller; fees and burns are counted.
unfoldable pub cover_outflow : Account → Flow → Account
cover_outflow a f = record a {
  spendable_balance =
      if lt64 a.spendable_balance f.amount_out then f.amount_out else a.spendable_balance;
  total_fees_paid = if f.is_fee then add64 a.total_fees_paid f.amount_out else a.total_fees_paid;
  total_burned = if f.is_burned then add64 a.total_burned f.amount_out else a.total_burned;
}

-- Transactions, originations and airdrops: what is neither a fee nor a burn was sent or received.
unfoldable pub count_transfer : Account → Flow → Account
unfolding max64 nonzero_min64
count_transfer a f =
    let counted = not f.is_burned && not f.is_fee in
    let received = counted && lt64 0 f.amount_in in
    record a {
      total_received = if counted then add64 a.total_received f.amount_in else a.total_received;
      total_sent = if counted then add64 a.total_sent f.amount_out else a.total_sent;
      token_gen_max =
          if received then max64 a.token_gen_max (add64 f.token_gen_max 1) else a.token_gen_max;
      token_gen_min =
          if received
          then nonzero_min64 (a.token_gen_min ∷ add64 f.token_gen_min 1 ∷ [])
          else a.token_gen_min;
    }

unfoldable pub spend : Account → Flow → Account
spend a f = record a { spendable_balance = add64 a.spendable_balance (change f) }

unfoldable pub move_spendable : Movement → Account → Flow → Update
unfolding count_transfer spend
move_spendable Movement.transfer a f = (spend (count_transfer a f) f, none)
move_spendable Movement.claim a f =
    if lt64 a.unclaimed_balance f.amount_in
    then (a, some BalanceError.unclaimed)
    else (spend (record a { unclaimed_balance = sub64 a.unclaimed_balance f.amount_in }) f, none)
move_spendable Movement.other a f = (spend a f, none)

-- case FlowCategoryBalance
unfoldable pub update_spendable : Account → Flow → Update
unfolding cover_outflow move_spendable
update_spendable a f = move_spendable (movement f.operation) (cover_outflow a f) f

-- case FlowCategoryDelegation
unfoldable pub update_delegated : Account → Flow → Update
update_delegated a f =
    if lt64 a.delegated_balance f.amount_out
    then (a, some BalanceError.delegated)
    else (record a { delegated_balance = add64 a.delegated_balance (change f) }, none)

-- The switch on the category.
unfoldable pub update_category : FlowCategory → Account → Flow → Update
unfolding update_rewards update_deposits update_fees update_spendable update_delegated
update_category FlowCategory.rewards a f = update_rewards a f
update_category FlowCategory.deposits a f = update_deposits a f
update_category FlowCategory.fees a f = update_fees a f
update_category FlowCategory.balance a f = update_spendable a f
update_category FlowCategory.delegation a f = update_delegated a f
update_category FlowCategory.invalid a f = (a, none)

-- `(a.FrozenBalance() + a.SpendableBalance + a.UnclaimedBalance) > 0`
unfoldable pub has_funds : Account → Bool
unfolding frozen_balance
has_funds a = lt64 0 (add64 (add64 (frozen_balance a) a.spendable_balance) a.unclaimed_balance)

-- The heights of the first and last flow in each direction.
unfoldable pub update_activity : Account → Flow → Account
update_activity a f =
    let active = not (is_delegation f.category) && not (is_internal f.operation) in
    let incoming = active && lt64 0 f.amount_in in
    let outgoing = active && lt64 0 f.amount_out in
    record a {
      last_in = if incoming then f.height else a.last_in;
      first_in = if incoming && a.first_in == 0 then f.height else a.first_in;
      last_out = if outgoing then f.height else a.last_out;
      first_out = if outgoing && a.first_out == 0 then f.height else a.first_out;
    }

-- The funded flag and the last height; an account with no funds loses its key and generations.
unfoldable pub update_funded : Account → Account
unfolding has_funds max64_n
update_funded a =
    let funded = has_funds a in
    record a {
      is_funded = funded;
      last_seen = max64_n (a.last_seen ∷ a.last_in ∷ a.last_out ∷ []);
      is_revealed = funded && a.is_revealed;
      token_gen_min = if funded then a.token_gen_min else 0;
      token_gen_max = if funded then a.token_gen_max else 0;
    }

-- What follows the switch, unless it returned an error.
unfoldable pub finish_update : Flow → Update → Update
unfolding update_activity update_funded
finish_update f (a, none) = (update_funded (update_activity a f), none)
finish_update f (a, some e) = (a, some e)

-- `UpdateBalance`
unfoldable pub update_balance : Account → Flow → Update
unfolding update_category finish_update
update_balance a f = finish_update f (update_category f.category (record a { is_dirty = true }) f)

-- `UpdateBalanceN`: the first error ends the loop.
unfoldable pub update_balance_n : Account → List Flow → Update
unfolding update_balance
update_balance_n a [] = (a, none)
update_balance_n a (f ∷ fs) =
    let (a', e) = update_balance a f in
    elim e [ none ↦ update_balance_n a' fs | some x ↦ (a', some x) ]
