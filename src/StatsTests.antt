-- ===== src/StatsTests.antt =====
-- Runs of the totals of the builder at concrete inputs.
use tezos_index.Common.{ℕ, ◌≡◌, refl, arith, true, List, [], ◌∷◌, Option, none, some}
use tezos_index.Common.Int64.{add64, sub64, lt64}
use tezos_index.Chain.Address.{Address}
use tezos_index.Models.FlowType.{FlowCategory, FlowType}
use tezos_index.Models.Op.{Op}
use tezos_index.Models.Flow.{Flow, zero_flow}
use tezos_index.Models.Block.{zero_block}
use tezos_index.Models.Account.{Account, zero_account}
use tezos_index.Models.Account.Update.{update_balance, update_balance_n}
use tezos_index.Models.Account.Rollback.{rollback_balance}
use tezos_index.Models.Account.Books.{SameBooks}
use tezos_index.Puller.Stats.Unwind.{AllUndoable, rollback_stats-update_stats}
use tezos_index.Models.Block.Totals as Totals
use tezos_index.Models.Chain as Chain
use tezos_index.Models.Account.Books.{sub_account}
use tezos_index.Models.Account.Ledger.{net}
use tezos_index.Puller.Builder.{Outcome, ok}
use tezos_index.Puller.Accounts.{Accounts, find, by_id, register_delegate, unregister_delegate}
use tezos_index.Puller.Accounts.Delegates.{AllAre, IsSplit, delegates-IsSplit}
use tezos_index.Puller.Stats.{
  Ledger, Endorsement, mark_funded, mark_all, update_flows, update_stats, rollback_stats,
}
use tezos_index.Puller.Stats.Flows.{
  Known, flows_of, settle, applied, on_some, post_update, update_flows-settle,
}
use tezos_index.Puller.Stats.Books.{Settled, update_stats-Settled}
use tezos_index.Puller.Stats.Net.{AllOut, keep, own, in_then_out, update_stats-net}
use tezos_index.TotalsTests.{roll_params, no_chain, no_supply, transfer}

abbrev owner : Account
owner = record zero_account {
  row_id = 4;
  is_delegated = true;
  delegate_id = 6;
  spendable_balance = 900;
  last_seen = 9;
}

abbrev baker : Account
baker = record zero_account { row_id = 6; is_delegate = true; frozen_deposits = 64 }

abbrev held : Accounts
held = record {
  acc_map = owner ∷ [];
  dlg_map = baker ∷ [];
  acc_hash_map = λ key. none;
  dlg_hash_map = λ key. none;
}

abbrev hash_key : Address → ℕ
hash_key addr = 0

-- The baker gets a deposit and pays one out, before it in the block.
abbrev flows : List Flow
flows =
    record zero_flow {
      account_id = 6;
      category = FlowCategory.deposits;
      operation = FlowType.internal;
      amount_out = 70;
    }
    ∷ record zero_flow {
      account_id = 6;
      category = FlowCategory.deposits;
      operation = FlowType.baking;
      amount_in = 512;
    }
    ∷ []

flows-Known : Known (mark_all held) flows
unfolding Known by_id mark_all
flows-Known = ((λ e. cc), ((λ e. cc), tt))

held-Known : Known held flows
unfolding Known by_id
held-Known = ((λ e. cc), ((λ e. cc), tt))

update_flows-settle_example :
    (m : Accounts) × (update_flows held flows ≡ ok m)
    × ((id : ℕ)
        → by_id m id ≡ on_some (λ a. settle post_update a (applied id flows)) (by_id held id))
update_flows-settle_example = update_flows-settle held flows held-Known

abbrev ledger : Ledger
ledger = record {
  block = record (zero_block roll_params) { height = 9; flows = flows; ops = transfer ∷ [] };
  parent = none;
  chain = no_chain;
  supply = no_supply;
  accounts = held;
  endorsing = 6 ∷ [];
}

abbrev unreported : Op → Option Endorsement
unreported o = none

abbrev returned : Outcome Ledger → Ledger
returned (ok l) = l
returned _ = ledger

abbrev after : Ledger
unfolding update_stats
after = returned (update_stats hash_key unreported ledger)

update_stats-after : update_stats hash_key unreported ledger ≡ ok after
unfolding update_stats after lt64 update_balance add64 sub64 Totals.proceed Totals.count_ops
    Chain.count_delegates
update_stats-after = refl

update_stats-Settled_example : Settled ledger after.accounts
update_stats-Settled_example =
    update_stats-Settled hash_key unreported ledger after flows-Known update_stats-after

baker-passed : (update_balance_n (mark_funded baker) (in_then_out (own 6 flows))).1 ≡ none
unfolding update_balance_n mark_funded keep update_balance lt64 add64 sub64
baker-passed = refl

baker-AllOut : AllOut (own 6 flows)
unfolding AllOut keep
baker-AllOut = (omega arith, (omega arith, tt))

baker-net : net FlowCategory.deposits (own 6 flows) ≡ 442
unfolding net keep add64 sub64
baker-net = refl

update_stats-net_example :
    (b : Account) × (by_id after.accounts 6 ≡ some b)
    × (sub_account FlowCategory.deposits b ≡ add64 64 (net FlowCategory.deposits (own 6 flows)))
unfolding by_id
update_stats-net_example =
    update_stats-net hash_key unreported ledger after 6 baker FlowCategory.deposits flows-Known
      update_stats-after refl baker-AllOut baker-passed (λ e. cc) (omega arith)

held-IsSplit : IsSplit held
unfolding AllAre find
held-IsSplit = ((refl, tt), (refl, tt), λ id n. ground arith)

delegates-IsSplit_example :
    IsSplit (register_delegate hash_key 9 2 roll_params held owner)
    × IsSplit (unregister_delegate hash_key held owner)
delegates-IsSplit_example = delegates-IsSplit hash_key 9 2 roll_params held owner held-IsSplit

abbrev reverted : Ledger
unfolding rollback_stats after
reverted = returned (rollback_stats hash_key unreported after)

rollback_stats-reverted : rollback_stats hash_key unreported after ≡ ok reverted
unfolding rollback_stats reverted after update_stats lt64 update_balance rollback_balance add64
    sub64 Totals.proceed Totals.count_ops Totals.rollback Chain.count_delegates Totals.count_rest
    Totals.reset_totals
rollback_stats-reverted = refl

abbrev taken : Option Account → Account
taken none = baker
taken (some a) = a

-- The baker as the update leaves it.
abbrev paid : Account
unfolding after by_id
paid = taken (by_id after.accounts 6)

paid-after : by_id after.accounts 6 ≡ some paid
unfolding paid after update_stats by_id lt64 update_balance add64 sub64 Totals.proceed
    Totals.count_ops Chain.count_delegates
paid-after = refl

paid_self : SameBooks paid paid
paid_self = ground arith

after-flows : after.block.flows ≡ flows
unfolding after update_stats lt64 update_balance add64 sub64 Totals.proceed Totals.count_ops
    Chain.count_delegates Totals.count_rest Totals.reset_totals
after-flows = refl

baker-AllUndoable : AllUndoable (mark_funded baker) (applied 6 flows)
unfolding AllUndoable mark_funded flows_of update_balance lt64 add64 sub64
baker-AllUndoable = (
  record {
    sound = ground arith;
    amounts = ground arith;
    fits = omega arith;
    covered = λ e. cc;
    plain = λ e m. cc;
    passes = refl;
  },
  (
    record {
      sound = ground arith;
      amounts = ground arith;
      fits = omega arith;
      covered = λ e. cc;
      plain = λ e m. cc;
      passes = refl;
    },
    tt,
  ),
)

rollback_stats-update_stats_example :
    (d : Account) × (by_id reverted.accounts 6 ≡ some d) × SameBooks d baker
unfolding by_id flows_of lt64
rollback_stats-update_stats_example =
    rollback_stats-update_stats hash_key unreported ledger after after reverted 6 baker paid paid
      flows-Known update_stats-after rollback_stats-reverted refl paid-after paid-after paid_self
      after-flows baker-AllUndoable refl
