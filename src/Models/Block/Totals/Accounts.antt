-- ===== src/Models/Block/Totals/Accounts.antt =====
-- puller/models/block.go: the new accounts of a block, by kind.
use tezos_index.Common.{ℕ, ◌≡◌, arith, subst, List, [], ◌∷◌, Option, some, length}
use tezos_index.Common.Int64.{Int64, add64}
use tezos_index.Chain.OpType.{OpType}
use tezos_index.Models.FlowType.{FlowType}
use tezos_index.Models.Flow.{Flow}
use tezos_index.Models.Op.{Op}
use tezos_index.Models.Account.{Account}
use tezos_index.Models.Block.{Block}
use tezos_index.Models.Block.Totals.{
  reset_totals, add_op, count_op, count_ops, count_flow, count_flows, add_baking, add_unfrozen,
}
use tezos_index.Models.Block.Totals.{
  count_new, count_seen, count_account, count_accounts, count_delegate, count_delegates, update,
  count_rest,
}
use tezos_index.Models.Block.Totals.Counters.{count_ops-cons, nil_block, update-eq-some}

-- The new accounts of a block are implicit, managed, or contracts.
abbrev pub IsNewSum : Block → Type 0
IsNewSum b =
    b.new_accounts ≡ add64 (add64 b.new_implicit_accounts b.new_managed_accounts) b.new_contracts

step_op-IsNewSum :
    (t : OpType) (b : Block) (o : Op) → IsNewSum b → IsNewSum (count_op t (add_op b o) o)
unfolding count_op add_op
step_op-IsNewSum OpType.bake b o h = h
step_op-IsNewSum t b o h = h

count_ops-IsNewSum :
    (endorsed : Op → Option (List Int64)) (b : Block) (slots : ℕ) (os : List Op) (r : Block × ℕ)
    → count_ops endorsed b slots os ≡ some r
    → IsNewSum b
    → IsNewSum r.0
count_ops-IsNewSum endorsed b slots [] r e h = subst IsNewSum (nil_block endorsed b slots r e) h
count_ops-IsNewSum endorsed b slots (o ∷ os) r e h =
    let (s, e') = count_ops-cons endorsed b slots o os r e in
    count_ops-IsNewSum endorsed (count_op o.type (add_op b o) o) s os r e'
      (step_op-IsNewSum o.type b o h)

count_flow-IsNewSum :
    (t : FlowType) (b : Block) (f : Flow) → IsNewSum b → IsNewSum (count_flow t b f)
unfolding count_flow add_baking add_unfrozen
count_flow-IsNewSum FlowType.transaction b f h = h
count_flow-IsNewSum t b f h = ground arith

count_flows-IsNewSum : (b : Block) (fs : List Flow) → IsNewSum b → IsNewSum (count_flows b fs)
unfolding count_flows
count_flows-IsNewSum b [] h = h
count_flows-IsNewSum b (f ∷ fs) h =
    count_flows-IsNewSum (count_flow f.operation b f) fs (count_flow-IsNewSum f.operation b f h)

count_account-IsNewSum : (b : Block) (a : Account) → IsNewSum b → IsNewSum (count_account b a)
unfolding count_account count_new count_seen add64
count_account-IsNewSum b a h = ground arith

count_accounts-IsNewSum :
    (b : Block) (l : List Account) → IsNewSum b → IsNewSum (count_accounts b l)
unfolding count_accounts
count_accounts-IsNewSum b [] h = h
count_accounts-IsNewSum b (a ∷ l) h =
    count_accounts-IsNewSum (count_account b a) l (count_account-IsNewSum b a h)

count_delegate-IsNewSum : (b : Block) (a : Account) → IsNewSum b → IsNewSum (count_delegate b a)
unfolding count_delegate count_seen add64
count_delegate-IsNewSum b a h = ground arith

count_delegates-IsNewSum :
    (b : Block) (l : List Account) → IsNewSum b → IsNewSum (count_delegates b l)
unfolding count_delegates
count_delegates-IsNewSum b [] h = h
count_delegates-IsNewSum b (a ∷ l) h =
    count_delegates-IsNewSum (count_delegate b a) l (count_delegate-IsNewSum b a h)

count_rest-IsNewSum :
    (b : Block) (accounts delegates : List Account)
    → IsNewSum b
    → IsNewSum (count_rest b accounts delegates)
unfolding count_rest
count_rest-IsNewSum b accounts delegates h =
    let done : Block = record b { n_ops = length b.ops } in
    let flowed = count_flows done b.flows in
    count_delegates-IsNewSum (count_accounts flowed accounts) delegates
      (count_accounts-IsNewSum flowed accounts (count_flows-IsNewSum done b.flows h))

-- After an update the new accounts of the block are its new implicit accounts, its new managed
-- accounts and its new contracts.
pub update-IsNewSum :
    (endorsed : Op → Option (List Int64)) (b : Block) (accounts delegates : List Account)
    (r : Block × ℕ)
    → update endorsed b accounts delegates ≡ some r
    → r.0.new_accounts
      ≡ add64 (add64 r.0.new_implicit_accounts r.0.new_managed_accounts) r.0.new_contracts
unfolding reset_totals add64
update-IsNewSum endorsed b accounts delegates r e =
    let (counted, eq, same) = update-eq-some endorsed b accounts delegates r e in
    let start : IsNewSum (reset_totals b) = omega arith in
    let ops = count_ops-IsNewSum endorsed (reset_totals b) 0 b.ops counted eq start in
    subst IsNewSum same (count_rest-IsNewSum counted.0 accounts delegates ops)
