-- ===== src/Puller/Stats.antt =====
-- puller/builder.go: `UpdateStats` and `RollbackStats`, which apply the flows of a block to its
-- accounts, count delegations and missed endorsement slots, and total up.
pub mod Flows
pub mod Books
pub mod Net
pub mod Unwind
use tezos_index.Common.{
  ℕ, Bool, not, ◌&&◌, ◌||◌, List, [], ◌∷◌, Option, none, some, ◌==◌, if◌then◌else◌, map, length,
  true,
}
use tezos_index.Common.Int64.{Int64, add64, sub64, lt64}
use tezos_index.Chain.Address.{Address}
use tezos_index.Chain.OpType.{OpType}
use tezos_index.Models.Flow.{Flow}
use tezos_index.Models.Op.{Op}
use tezos_index.Models.Account.{Account, frozen_balance}
use tezos_index.Models.Account.Update.{update_balance}
use tezos_index.Models.Account.Rollback.{rollback_balance}
use tezos_index.Models.Block.{Block}
use tezos_index.Models.Block.Totals as Totals
use tezos_index.Models.Chain.{Chain}
use tezos_index.Models.Chain as Chain
use tezos_index.Models.Supply.{Supply}
use tezos_index.Models.Supply as Supply
use tezos_index.Puller.Builder.{BuildError, Outcome, ok, err, panic, ◌>>=◌, deref}
use tezos_index.Puller.Accounts.{Accounts, by_id, by_address, modify_account}

-- `acc.WasFunded = (acc.FrozenBalance() + acc.SpendableBalance) > 0`
unfoldable pub mark_funded : Account → Account
unfolding frozen_balance
mark_funded acc = record acc {
  was_funded = lt64 0 (add64 (frozen_balance acc) acc.spendable_balance);
}

-- The loops over both maps.
unfoldable pub mark_all : Accounts → Accounts
unfolding mark_funded
mark_all m = record m { acc_map = map mark_funded m.acc_map; dlg_map = map mark_funded m.dlg_map }

-- One turn of a loop of `UpdateStats` over the flows. The error of `UpdateBalance` is dropped.
unfoldable pub update_flow : Accounts → Flow → Outcome Accounts
unfolding by_id modify_account
update_flow m f = elim (by_id m f.account_id) [
  | none ↦ err BuildError.missing_account
  | some acc ↦ ok (modify_account m f.account_id (λ a. (update_balance a f).0))
]

-- One turn of a loop of `RollbackStats`. The error of `RollbackBalance` ends the loop.
unfoldable pub rollback_flow : Accounts → Flow → Outcome Accounts
unfolding by_id modify_account
rollback_flow m f = elim (by_id m f.account_id) [
  | none ↦ err BuildError.missing_account
  | some acc ↦ elim (rollback_balance acc f).1 [
    | none ↦ ok (modify_account m f.account_id (λ a. (rollback_balance a f).0))
    | some e ↦ err (BuildError.bad_balance e)
  ]
]

-- A loop over the flows that skips some.
unfoldable pub each_flow :
    (Accounts → Flow → Outcome Accounts) → (Flow → Bool) → Accounts → List Flow → Outcome Accounts
each_flow turn skip m [] = ok m
each_flow turn skip m (f ∷ fs) =
    (if skip f then ok m else turn m f) >>= λ m'. each_flow turn skip m' fs

-- `f.AmountOut > 0` and `f.AmountOut == 0`
abbrev pub has_out : Flow → Bool
has_out f = lt64 0 f.amount_out

abbrev pub has_no_out : Flow → Bool
has_no_out f = f.amount_out == 0

-- The two loops of `UpdateStats`: pure in-flows, then the others.
unfoldable pub update_flows : Accounts → List Flow → Outcome Accounts
unfolding each_flow update_flow
update_flows m fs =
    each_flow update_flow has_out m fs >>= λ m'. each_flow update_flow has_no_out m' fs

-- The two loops of `RollbackStats`, the other way round.
unfoldable pub rollback_flows : Accounts → List Flow → Outcome Accounts
unfolding each_flow rollback_flow
rollback_flows m fs =
    each_flow rollback_flow has_no_out m fs >>= λ m'. each_flow rollback_flow has_out m' fs

-- What the delegate learns when the account `acc` flips its funded state.
unfoldable pub flip_delegation : Account → Account → Account
flip_delegation acc dlg = record dlg {
  is_dirty = true;
  active_delegations =
      if not acc.is_funded && acc.was_funded
      then sub64 dlg.active_delegations 1
      else if acc.is_funded && not acc.was_funded
      then add64 dlg.active_delegations 1
      else dlg.active_delegations;
}

-- One turn of the loop over the accounts. A delegate that the maps do not have is a nil pointer.
unfoldable pub count_delegation : Int64 → Accounts → Account → Outcome Accounts
unfolding by_id modify_account flip_delegation
count_delegation height m acc =
    if acc.is_new || not (acc.last_seen == height)
    then ok m
    else if not acc.is_delegated || acc.delegate_id == acc.row_id
    then ok m
    else (deref (by_id m acc.delegate_id) >>= λ dlg.
        ok (modify_account m acc.delegate_id (flip_delegation acc)))

-- The loop. It changes nothing that it reads of the accounts, which stand in `accs` as they were.
unfoldable pub count_delegations : Int64 → Accounts → List Account → Outcome Accounts
unfolding count_delegation
count_delegations height m [] = ok m
count_delegations height m (acc ∷ accs) =
    count_delegation height m acc >>= λ m'. count_delegations height m' accs

-- What the node reports for an endorsement: the delegate and its slots.
pub record Endorsement : Type 0 where
  pub delegate : Address
  pub slots : List Int64

-- `erights[id] = g(erights[id])`; a missing key reads 0.
unfoldable pub set_right : ℕ → (Int64 → Int64) → List (ℕ × Int64) → List (ℕ × Int64)
set_right id g [] = (id, g 0) ∷ []
set_right id g (r ∷ rs) =
    let rest = set_right id g rs in if r.0 == id then (r.0, g r.1) ∷ rs else r ∷ rest

-- The loop over the endorsing rights, which are the ids of their accounts.
unfoldable pub count_rights : Accounts → List (ℕ × Int64) → List ℕ → Outcome (List (ℕ × Int64))
unfolding by_id set_right
count_rights m rights [] = ok rights
count_rights m rights (id ∷ ids) = elim (by_id m id) [
  | none ↦ err BuildError.missing_account
  | some acc ↦ count_rights m (set_right acc.row_id (λ n. add64 n 1) rights) ids
]

module _ (hash_key : Address → ℕ) (endorsed : Op → Option Endorsement) where
  -- One turn of the loop over the operations. What the node does not report, or an address with no
  -- account, is a nil pointer.
  unfoldable pub count_endorsement :
      Accounts → OpType → Op → List (ℕ × Int64) → Outcome (List (ℕ × Int64))
  unfolding by_address set_right
  count_endorsement m OpType.endorsement o rights = deref (endorsed o) >>= λ e.
      deref (by_address hash_key m e.delegate) >>= λ acc.
      ok (set_right acc.row_id (λ n. sub64 n (length e.slots)) rights)
  count_endorsement m _ o rights = ok rights

  unfoldable pub count_endorsements :
      Accounts → List Op → List (ℕ × Int64) → Outcome (List (ℕ × Int64))
  unfolding count_endorsement
  count_endorsements m [] rights = ok rights
  count_endorsements m (o ∷ os) rights =
      count_endorsement m o.type o rights >>= λ rights'. count_endorsements m os rights'

-- `acc.SlotsMissed += n; acc.IsDirty = true`
abbrev pub miss_slots : Int64 → Account → Account
miss_slots n acc = record acc { slots_missed = add64 acc.slots_missed n; is_dirty = true }

-- The loop over what is left of the rights. A Go map has no order; the keys are different accounts.
unfoldable pub note_missed : Accounts → List (ℕ × Int64) → Outcome Accounts
unfolding by_id modify_account
note_missed m [] = ok m
note_missed m (r ∷ rs) =
    (if lt64 0 r.1
      then (deref (by_id m r.0) >>= λ acc. ok (modify_account m r.0 (miss_slots r.1)))
      else ok m)
    >>= λ m'. note_missed m' rs

-- What the builder holds: the block, its parent, the totals, the accounts and the accounts of the
-- endorsing rights.
pub record Ledger : Type 0 where
  pub block : Block
  pub parent : Option Block
  pub chain : Chain
  pub supply : Supply
  pub accounts : Accounts
  pub endorsing : List ℕ

-- `b.block.Parent`, if there is one, learns the endorsed slots.
unfoldable pub note_parent : Option Block → ℕ → Option Block
unfolding Totals.note_slots
note_parent none slots = none
note_parent (some p) slots = some (Totals.note_slots p slots)

-- What `UpdateStats` leaves, with the block and the chain totalled.
unfoldable pub closed : Ledger → Accounts → Block → ℕ → Chain → Ledger
unfolding note_parent Supply.update
closed l m block slots chain = record l {
  block = block;
  parent = note_parent l.parent slots;
  chain = chain;
  supply = Supply.update l.supply block m.dlg_map;
  accounts = m;
}

module _ (hash_key : Address → ℕ) (endorsed : Op → Option Endorsement) where
  -- The slots of an endorsement.
  abbrev pub slots_of : Op → Option (List Int64)
  slots_of o = elim (endorsed o) [ none ↦ none | some e ↦ some e.slots ]

  -- The endorsement slots missed: rights less endorsements.
  unfoldable pub count_missed : Ledger → Accounts → Outcome Accounts
  unfolding count_rights count_endorsements note_missed
  count_missed l m = count_rights m [] l.endorsing >>= λ rights.
      count_endorsements hash_key endorsed m l.block.ops rights >>= λ left. note_missed m left

  -- The accounts after all loops of `UpdateStats`.
  unfoldable pub update_accounts : Ledger → Outcome Accounts
  unfolding mark_all update_flows count_delegations count_missed
  update_accounts l = update_flows (mark_all l.accounts) l.block.flows >>= λ m.
      count_delegations l.block.height m m.acc_map >>= λ m'. count_missed l m'

  -- `b.block.Update`, `b.block.Chain.Update` and `b.block.Supply.Update`. A division by zero of the
  -- chain is a panic.
  unfoldable pub total_up : Ledger → Accounts → Outcome Ledger
  unfolding closed Totals.update Chain.update
  total_up l m = deref (Totals.update slots_of l.block m.acc_map m.dlg_map) >>= λ (block, slots).
      deref (Chain.update l.chain block m.dlg_map) >>= λ chain. ok (closed l m block slots chain)

  -- `UpdateStats`
  unfoldable pub update_stats : Ledger → Outcome Ledger
  unfolding update_accounts total_up
  update_stats l = update_accounts l >>= λ m. total_up l m

  -- The accounts after all loops of `RollbackStats`.
  unfoldable pub rollback_accounts : Ledger → Outcome Accounts
  unfolding mark_all rollback_flows count_delegations
  rollback_accounts l = rollback_flows (mark_all l.accounts) l.block.flows >>= λ m.
      count_delegations l.block.height m m.acc_map

  -- `b.block.Rollback`, `b.block.Chain.Rollback` and `b.block.Supply.Rollback`.
  unfoldable pub revert_totals : Ledger → Accounts → Outcome Ledger
  unfolding note_parent Totals.rollback Chain.rollback Supply.rollback
  revert_totals l m =
      deref (Totals.rollback slots_of l.block m.acc_map m.dlg_map) >>= λ (block, slots).
      ok (record l {
        block = block;
        parent = note_parent l.parent slots;
        chain = Chain.rollback l.chain block;
        supply = Supply.rollback l.supply block;
        accounts = m;
      })

  -- `RollbackStats`
  unfoldable pub rollback_stats : Ledger → Outcome Ledger
  unfolding rollback_accounts revert_totals
  rollback_stats l = rollback_accounts l >>= λ m. revert_totals l m
