-- ===== src/Models/Block/Totals.antt =====
-- puller/models/block.go: `Update`, which computes the totals of a block from its operations, its
-- flows and the accounts that it touched. Left out are the floating-point gas price and token days
-- destroyed.
pub mod Counters
pub mod Accounts
use tezos_index.Common.{ℕ, ◌+◌, ◌-◌, ◌/◌, ◌%◌, ◌^◌, Bool, true, not, ◌&&◌, List, [], ◌∷◌, length}
use tezos_index.Common.{Option, none, some, ◌==◌, leb, if◌then◌else◌, suc, zero}
use tezos_index.Common.Int64.{Int64, add64}
use tezos_index.Chain.OpType.{OpType}
use tezos_index.Models.FlowType.{FlowCategory, FlowType}
use tezos_index.Models.Flow.{Flow}
use tezos_index.Models.Op.{Op}
use tezos_index.Models.Account.{Account}
use tezos_index.Models.Block.{Block}

-- The initial state. The counts of seed nonces and of contract operations are not reset.
unfoldable pub reset_totals : Block → Block
reset_totals b = record b {
  n_ops = 0;
  n_ops_failed = 0;
  n_tx = 0;
  n_activation = 0;
  n_reveal = 0;
  n2_baking = 0;
  n2_endorsement = 0;
  n_endorsement = 0;
  n_delegation = 0;
  n_origination = 0;
  n_proposal = 0;
  n_ballot = 0;
  volume = 0;
  fees = 0;
  rewards = 0;
  deposits = 0;
  unfrozen_fees = 0;
  unfrozen_rewards = 0;
  unfrozen_deposits = 0;
  activated_supply = 0;
  burned_supply = 0;
  seen_accounts = 0;
  new_accounts = 0;
  new_implicit_accounts = 0;
  new_managed_accounts = 0;
  new_contracts = 0;
  cleared_accounts = 0;
  funded_accounts = 0;
  gas_limit = 0;
  gas_used = 0;
  storage_size = 0;
}

-- What every operation adds.
unfoldable pub add_op : Block → Op → Block
add_op b o = record b {
  volume = if o.is_success then add64 b.volume o.volume else b.volume;
  fees = add64 b.fees o.fee;
  rewards = add64 b.rewards o.reward;
  deposits = add64 b.deposits o.deposit;
  burned_supply = add64 b.burned_supply o.burned;
  gas_limit = add64 b.gas_limit o.gas_limit;
  gas_used = add64 b.gas_used o.gas_used;
  storage_size = add64 b.storage_size o.storage_size;
  n_ops_contract = if o.is_contract then add64 b.n_ops_contract 1 else b.n_ops_contract;
  n_ops_failed = if o.is_success then b.n_ops_failed else add64 b.n_ops_failed 1;
}

-- The switch on the type of an operation.
unfoldable pub count_op : OpType → Block → Op → Block
count_op OpType.activate_account b o = record b {
  n_activation = add64 b.n_activation 1;
  activated_supply = add64 b.activated_supply o.volume;
}
count_op OpType.double_baking_evidence b o = record b { n2_baking = add64 b.n2_baking 1 }
count_op OpType.double_endorsement_evidence b o = record b {
  n2_endorsement = add64 b.n2_endorsement 1;
}
count_op OpType.seed_nonce_revelation b o = record b { n_seed_nonce = add64 b.n_seed_nonce 1 }
count_op OpType.transaction b o = record b { n_tx = add64 b.n_tx 1 }
count_op OpType.origination b o = record b { n_origination = add64 b.n_origination 1 }
count_op OpType.delegation b o = record b { n_delegation = add64 b.n_delegation 1 }
count_op OpType.reveal b o = record b { n_reveal = add64 b.n_reveal 1 }
count_op OpType.endorsement b o = record b { n_endorsement = add64 b.n_endorsement 1 }
count_op OpType.proposals b o = record b { n_proposal = add64 b.n_proposal 1 }
count_op OpType.ballot b o = record b { n_ballot = add64 b.n_ballot 1 }
count_op _ b o = b

-- `slotsEndorsed |= 1 << uint(v)` on 32 bits: a shift by 32 or more gives zero.
unfoldable pub set_slot : ℕ → Int64 → ℕ
set_slot slots v =
    if leb 32 v then slots else if slots / 2 ^ v % 2 == 1 then slots else slots + 2 ^ v

unfoldable pub set_slots : ℕ → List Int64 → ℕ
unfolding set_slot
set_slots slots [] = slots
set_slots slots (v ∷ vs) = set_slots (set_slot slots v) vs

-- The slots of an endorsement are in the RPC operation that it stands for (`endorsed`, none where
-- that operation is no endorsement, which panics).
unfoldable pub endorse : (Op → Option (List Int64)) → OpType → ℕ → Op → Option ℕ
unfolding set_slots
endorse endorsed OpType.endorsement slots o = elim (endorsed o) [
  | none ↦ none
  | some vs ↦ some (set_slots slots vs)
]
endorse endorsed _ slots o = some slots

-- The loop over the operations.
unfoldable pub count_ops : (Op → Option (List Int64)) → Block → ℕ → List Op → Option (Block × ℕ)
unfolding add_op count_op endorse
count_ops endorsed b slots [] = some (b, slots)
count_ops endorsed b slots (o ∷ os) = elim (endorse endorsed o.type slots o) [
  | none ↦ none
  | some slots' ↦ count_ops endorsed (count_op o.type (add_op b o) o) slots' os
]

-- `bits.OnesCount32`
unfoldable pub ones_count : ℕ → ℕ → ℕ
ones_count zero n = 0
ones_count (suc bits) n = n % 2 + ones_count bits (n / 2)

-- What the parent block learns, where there is one.
unfoldable pub note_slots : Block → ℕ → Block
unfolding ones_count
note_slots parent slots = record parent {
  slots_endorsed = slots;
  n_slots_endorsed = ones_count 32 slots;
}

unfoldable pub add_baking : FlowCategory → Block → Int64 → Block
add_baking FlowCategory.rewards b amount = record b { rewards = add64 b.rewards amount }
add_baking FlowCategory.deposits b amount = record b { deposits = add64 b.deposits amount }
add_baking _ b amount = b

unfoldable pub add_unfrozen : FlowCategory → Block → Int64 → Block
add_unfrozen FlowCategory.deposits b amount = record b {
  unfrozen_deposits = add64 b.unfrozen_deposits amount;
}
add_unfrozen FlowCategory.rewards b amount = record b {
  unfrozen_rewards = add64 b.unfrozen_rewards amount;
}
add_unfrozen FlowCategory.fees b amount = record b { unfrozen_fees = add64 b.unfrozen_fees amount }
add_unfrozen _ b amount = b

-- The switch on the operation of a flow.
unfoldable pub count_flow : FlowType → Block → Flow → Block
unfolding add_baking add_unfrozen
count_flow FlowType.baking b f = add_baking f.category b f.amount_in
count_flow FlowType.internal b f =
    if f.is_unfrozen then add_unfrozen f.category b f.amount_out else b
count_flow FlowType.nonce_revelation b f =
    if f.is_burned then record b { burned_supply = add64 b.burned_supply f.amount_out } else b
count_flow FlowType.vest b f = record b { activated_supply = add64 b.activated_supply f.amount_in }
count_flow _ b f = b

unfoldable pub count_flows : Block → List Flow → Block
unfolding count_flow
count_flows b [] = b
count_flows b (f ∷ fs) = count_flows (count_flow f.operation b f) fs

-- A new account that is no delegate is a contract, managed or implicit.
unfoldable pub count_new : Block → Account → Block
count_new b acc =
    let managed = not (acc.manager_id == 0) in
    record b {
      new_accounts = add64 b.new_accounts 1;
      new_contracts = if acc.is_contract then add64 b.new_contracts 1 else b.new_contracts;
      new_managed_accounts =
          if not acc.is_contract && managed
          then add64 b.new_managed_accounts 1
          else b.new_managed_accounts;
      new_implicit_accounts =
          if not acc.is_contract && not managed
          then add64 b.new_implicit_accounts 1
          else b.new_implicit_accounts;
    }

-- An account that the block touched, and whether that funded or emptied it.
unfoldable pub count_seen : Block → Account → Block
count_seen b acc =
    if acc.last_seen == b.height
    then record b {
      seen_accounts = add64 b.seen_accounts 1;
      cleared_accounts =
          if not acc.is_funded && acc.was_funded
          then add64 b.cleared_accounts 1
          else b.cleared_accounts;
      funded_accounts =
          if acc.is_funded && not acc.was_funded
          then add64 b.funded_accounts 1
          else b.funded_accounts;
    }
    else b

-- A new delegate among the accounts is left to the other loop.
unfoldable pub count_account : Block → Account → Block
unfolding count_new count_seen
count_account b acc =
    if acc.is_new && acc.is_dirty
    then if acc.is_delegate then b else count_seen (count_new b acc) acc
    else count_seen b acc

unfoldable pub count_accounts : Block → List Account → Block
unfolding count_account
count_accounts b [] = b
count_accounts b (acc ∷ accs) = count_accounts (count_account b acc) accs

unfoldable pub count_delegate : Block → Account → Block
unfolding count_seen
count_delegate b acc =
    count_seen
      (if acc.is_new
        then record b {
          new_accounts = add64 b.new_accounts 1;
          new_implicit_accounts = add64 b.new_implicit_accounts 1;
        }
        else b)
      acc

unfoldable pub count_delegates : Block → List Account → Block
unfolding count_delegate
count_delegates b [] = b
count_delegates b (acc ∷ accs) = count_delegates (count_delegate b acc) accs

-- What follows the loop over the operations: the two maps of accounts are lists.
unfoldable pub count_rest : Block → List Account → List Account → Block
unfolding count_flows count_accounts count_delegates
count_rest b accounts delegates =
    let done = record b { n_ops = length b.ops } in
    count_delegates (count_accounts (count_flows done b.flows) accounts) delegates

-- A panic ends the update; else the first component goes on.
unfoldable pub proceed : {A B : Type 0} → (A → A) → Option (A × B) → Option (A × B)
proceed f none = none
proceed f (some r) = some (f r.0, r.1)

-- `Update`: the block, and the endorsed slots for its parent.
unfoldable pub update :
    (Op → Option (List Int64)) → Block → List Account → List Account → Option (Block × ℕ)
update endorsed b accounts delegates =
    proceed (λ counted. count_rest counted accounts delegates)
      (count_ops endorsed (reset_totals b) 0 b.ops)

-- `Rollback`
unfoldable pub rollback :
    (Op → Option (List Int64)) → Block → List Account → List Account → Option (Block × ℕ)
rollback endorsed b accounts delegates =
    proceed (λ updated. record updated { is_orphan = true }) (update endorsed b accounts delegates)
