-- ===== src/Puller/Stats/Unwind.antt =====
-- puller/builder.go: `RollbackStats` after `UpdateStats`, for one account.
use tezos_index.Common.{
  ℕ, Option, some, ap, ◌∙◌, ◌≡◌, ◌≤◌, ◌<◌, ◌+◌, ◌^◌, refl, sym, subst, arith, false, List, [], ◌∷◌,
  ◌++◌, none,
}
use tezos_index.Models.FlowType.{FlowCategory}
use tezos_index.Models.Flow.{Flow}
use tezos_index.Models.Account.{Account}
use tezos_index.Models.Account.Books.{SameBooks, IsSound, IsAmounts, sub_account}
use tezos_index.Models.Account.Update.{update_balance, movement, Movement}
use tezos_index.Models.Account.Rollback.{rollback_balance}
use tezos_index.Models.Account.Undo.{rollback_balance-SameBooks, SameBooks-trans}
use tezos_index.Models.Account.Ids.{rollback_balance-row_id}
use tezos_index.Models.Account.Update.{BalanceError}
use tezos_index.Models.Op.{Op}
use tezos_index.Models.Block.Totals as Totals
use tezos_index.Models.Chain as Chain
use tezos_index.Models.Supply as Supply
use tezos_index.Chain.Address.{Address}
use tezos_index.Puller.Builder.{BuildError, ok, err, deref}
use tezos_index.Puller.Builder.Laws.{>>=-eq-ok, ok-injective, Ends, Ends-ok, Ends-each}
use tezos_index.Puller.Accounts.{Accounts, by_id, modify_account}
use tezos_index.Puller.Accounts.Laws.{by_id-modify_account}
use tezos_index.Puller.Stats.{
  Ledger, Endorsement, has_out, has_no_out, mark_funded, mark_all, rollback_flow, rollback_flows,
  each_flow, count_delegations, update_stats, rollback_accounts, revert_totals, rollback_stats,
  slots_of, note_parent,
}
use tezos_index.Puller.Stats.Flows.{
  settle, settle-append, post_update, Posts, flows_of, applied, on_some, on_some_twice,
  on_some_cong, each_flow-by_id, Known,
}
use tezos_index.Puller.Stats.Books.{
  SameAmounts, AllSame, by_id-mark_all, count_delegations-AllSame, update_stats-Settled, found,
}

-- A flow that an account takes without an error, and that can be taken back: the sub-accounts and the
-- amounts are not negative, the credit does not overflow, an out-flow of the spendable balance is
-- covered, and a transaction, origination or airdrop flow is neither a fee nor a burn.
pub record IsUndoable (a : Account) (f : Flow) : Type 0 where
  pub sound : IsSound a
  pub amounts : IsAmounts f
  pub fits : sub_account f.category a + f.amount_in < 2 ^ 63
  pub covered : f.category ≡ FlowCategory.balance → f.amount_out ≤ a.spendable_balance
  pub plain :
      f.category ≡ FlowCategory.balance
      → movement f.operation ≡ Movement.transfer
      → (f.is_fee ≡ false) × (f.is_burned ≡ false)
  pub passes : (update_balance a f).1 ≡ none

-- Each flow of a list is undoable where its turn comes.
unfoldable pub AllUndoable : Account → List Flow → Type 0
AllUndoable a [] = Unit {0}
AllUndoable a (f ∷ fs) = IsUndoable a f × AllUndoable (update_balance a f).0 fs

-- `RollbackBalance` without its error.
abbrev pub post_rollback : Account → Flow → Account
post_rollback a f = (rollback_balance a f).0

abbrev pub backwards : List Flow → List Flow
backwards [] = []
backwards (f ∷ fs) = backwards fs ++ (f ∷ [])

pub settle-backwards :
    (a b : Account) (fs : List Flow)
    → AllUndoable a fs
    → SameBooks b (settle post_update a fs)
    → SameBooks (settle post_rollback b (backwards fs)) a
unfolding settle AllUndoable
settle-backwards a b [] u same = same
settle-backwards a b (f ∷ fs) u same =
    let c = settle post_rollback b (backwards fs) in
    let back : SameBooks c (update_balance a f).0 =
      settle-backwards (update_balance a f).0 b fs u.1 same in
    let h = u.0 in
    subst (λ x. SameBooks x a) (settle-append post_rollback b (backwards fs) (f ∷ []))
      (rollback_balance-SameBooks a c f h.sound h.amounts h.fits h.covered h.plain h.passes back).1

rollback_flow-Posts : Posts post_rollback rollback_flow
unfolding rollback_flow
rollback_flow-Posts m m' f j e =
    sym (ap (λ x. by_id x j) (made (by_id m f.account_id) e))
    ∙ by_id-modify_account f.account_id (λ a. post_rollback a f) (rollback_balance-row_id f) m j
  where
    put : Accounts
    put = modify_account m f.account_id (λ a. post_rollback a f)

    passed :
        (x : Option BalanceError)
        → (elim x [ none ↦ ok put | some z ↦ err (BuildError.bad_balance z) ]) ≡ ok m'
        → put ≡ m'
    passed none e = ok-injective e
    passed (some z) e = cc

    made :
        (o : Option Account)
        → (elim o [
          | none ↦ err BuildError.missing_account
          | some acc ↦ elim (rollback_balance acc f).1 [
            | none ↦ ok put
            | some z ↦ err (BuildError.bad_balance z)
          ]
        ])
          ≡ ok m'
        → put ≡ m'
    made none e = cc
    made (some acc) e = passed (rollback_balance acc f).1 e

-- The flows of one account in the order in which `RollbackStats` takes them.
abbrev pub rolled : ℕ → List Flow → List Flow
rolled id fs = flows_of id has_no_out fs ++ flows_of id has_out fs

rollback_flows-by_id :
    (m m' : Accounts) (fs : List Flow) (id : ℕ)
    → rollback_flows m fs ≡ ok m'
    → by_id m' id ≡ on_some (λ a. settle post_rollback a (rolled id fs)) (by_id m id)
unfolding rollback_flows
rollback_flows-by_id m m' fs id e =
    let loop = each_flow-by_id post_rollback rollback_flow rollback_flow-Posts in
    let (m1, e1, e2) =
      >>=-eq-ok (each_flow rollback_flow has_no_out m fs)
        (λ x. each_flow rollback_flow has_out x fs) m' e in
    loop has_out fs m1 m' id e2
    ∙ ap (on_some (λ a. settle post_rollback a (flows_of id has_out fs)))
        (loop has_no_out fs m m1 id e1)
    ∙ on_some_twice _ _ (by_id m id)
    ∙ on_some_cong
        (λ a. settle-append post_rollback a (flows_of id has_no_out fs) (flows_of id has_out fs))
        (by_id m id)

mark_funded-SameBooks : (a : Account) → SameBooks (mark_funded a) a
unfolding mark_funded
mark_funded-SameBooks a = ground arith

module _ (hash_key : Address → ℕ) (endorsed : Op → Option Endorsement) where
  revert_totals-accounts :
      (r : Ledger) (m : Accounts) → Ends (λ x. x.accounts ≡ m) (revert_totals hash_key endorsed r m)
  unfolding revert_totals
  revert_totals-accounts r m =
      Ends-each (λ x. x.accounts ≡ m)
        (deref (Totals.rollback (slots_of hash_key endorsed) r.block m.acc_map m.dlg_map))
        (λ (block, slots). ok (record r {
          block = block;
          parent = note_parent r.parent slots;
          chain = Chain.rollback r.chain block;
          supply = Supply.rollback r.supply block;
          accounts = m;
        }))
        (λ (block, slots). refl)

  -- The amounts of an account after `RollbackStats`.
  rollback_stats-settle :
      (r r' : Ledger) (id : ℕ) (c : Account)
      → rollback_stats hash_key endorsed r ≡ ok r'
      → by_id r.accounts id ≡ some c
      → SameAmounts
          (by_id r'.accounts id)
          (some (settle post_rollback (mark_funded c) (rolled id r.block.flows)))
  unfolding rollback_stats rollback_accounts
  rollback_stats-settle r r' id c e at =
      let (m, e1, e2) =
        >>=-eq-ok (rollback_accounts hash_key endorsed r) (revert_totals hash_key endorsed r) r'
          e in
      let (m1, e3, e4) =
        >>=-eq-ok (rollback_flows (mark_all r.accounts) r.block.flows)
          (λ x. count_delegations r.block.height x x.acc_map) m e1 in
      let held : r'.accounts ≡ m =
        Ends-ok (λ x. x.accounts ≡ m) (revert_totals hash_key endorsed r m) r'
          (revert_totals-accounts r m) e2 in
      let same : SameAmounts (by_id m id) (by_id m1 id) =
        Ends-ok (AllSame m1) (count_delegations r.block.height m1 m1.acc_map) m
          (count_delegations-AllSame r.block.height m1.acc_map m1) e4 id in
      let flowed =
        rollback_flows-by_id (mark_all r.accounts) m1 r.block.flows id e3
        ∙ ap (on_some (λ a. settle post_rollback a (rolled id r.block.flows)))
            (by_id-mark_all r.accounts id ∙ ap (on_some mark_funded) at) in
      subst
        (λ x.
          SameAmounts (by_id x id)
            (some (settle post_rollback (mark_funded c) (rolled id r.block.flows))))
        (sym held) (subst (SameAmounts (by_id m id)) flowed same)

  -- `RollbackStats` after `UpdateStats` brings every amount of an account back. The conditions: both
  -- succeed, and every flow of the block has its account; the block that is rolled back has the same
  -- flows, and its account the amounts that the update left; each of the account's own flows can be
  -- undone where its turn comes; and the rollback meets them in the opposite order, as it does where
  -- the account has at most one in-flow and one out-flow in the block.
  pub rollback_stats-update_stats :
      (l l' r r' : Ledger) (id : ℕ) (a b c : Account)
      → Known (mark_all l.accounts) l.block.flows
      → update_stats hash_key endorsed l ≡ ok l'
      → rollback_stats hash_key endorsed r ≡ ok r'
      → by_id l.accounts id ≡ some a
      → by_id l'.accounts id ≡ some b
      → by_id r.accounts id ≡ some c
      → SameBooks c b
      → r.block.flows ≡ l.block.flows
      → AllUndoable (mark_funded a) (applied id l.block.flows)
      → rolled id l.block.flows ≡ backwards (applied id l.block.flows)
      → (d : Account) × (by_id r'.accounts id ≡ some d) × SameBooks d a
  rollback_stats-update_stats l l' r r' id a b c k up down there_a there_b there_c same flows
        undoable order =
      let fs = applied id l.block.flows in
      let updated : SameBooks b (settle post_update (mark_funded a) fs) =
        subst (λ o. SameAmounts o (some (settle post_update (mark_funded a) fs))) there_b
          (subst
            (λ o.
              SameAmounts (by_id l'.accounts id)
                (on_some (λ x. settle post_update (mark_funded x) fs) o))
            there_a (update_stats-Settled hash_key endorsed l l' k up id)) in
      let marked : SameBooks (mark_funded c) (settle post_update (mark_funded a) fs) =
        SameBooks-trans (mark_funded-SameBooks c) (SameBooks-trans same updated) in
      let (d, there, books) =
        found (by_id r'.accounts id)
          (settle post_rollback (mark_funded c) (rolled id r.block.flows))
          (rollback_stats-settle r r' id c down there_c) in
      let order' : rolled id r.block.flows ≡ backwards fs = ap (rolled id) flows ∙ order in
      let back = settle-backwards (mark_funded a) (mark_funded c) fs undoable marked in
      (
        d,
        there,
        SameBooks-trans books (
            SameBooks-trans
              (subst (λ x. SameBooks (settle post_rollback (mark_funded c) x) (mark_funded a))
                (sym order') back)
              (mark_funded-SameBooks a)),
      )
