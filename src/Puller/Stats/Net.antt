-- ===== src/Puller/Stats/Net.antt =====
-- puller/builder.go: the sub-accounts of an account after `UpdateStats`, beside the sums of its flows
-- in the block.
use tezos_index.Common.{
  ℕ, ◌≡◌, ◌≢◌, ◌<◌, ◌^◌, ◌==◌, refl, sym, ap, ◌∙◌, arith, subst, Bool, not, ◌++◌, if◌then◌else◌,
  Bool-cases, List, [], ◌∷◌, Option, none, some, Option-cases, inl, inr,
}
use tezos_index.Common.Int64.{Int64, add64, lt64, add64_assoc}
use tezos_index.Chain.Address.{Address}
use tezos_index.Models.FlowType.{FlowCategory}
use tezos_index.Models.Op.{Op}
use tezos_index.Models.Flow.{Flow}
use tezos_index.Models.Account.{Account}
use tezos_index.Models.Account.Books.{sub_account, SameBooks-sub_account}
use tezos_index.Models.Account.Update.{change, update_balance, update_balance_n}
use tezos_index.Models.Account.Ledger.{same_category, net, update_balance_n-net}
use tezos_index.Puller.Builder.{ok}
use tezos_index.Puller.Accounts.{by_id}
use tezos_index.Puller.Stats.{
  has_out, has_no_out, Ledger, Endorsement, mark_funded, mark_all, update_stats,
}
use tezos_index.Puller.Stats.Flows.{flows_of, settle, applied, on_some, post_update, Known}
use tezos_index.Puller.Stats.Books.{SameAmounts, found, update_stats-Settled}

settle-update_balance_n :
    (a : Account) (fs : List Flow)
    → (update_balance_n a fs).1 ≡ none
    → settle post_update a fs ≡ (update_balance_n a fs).0
unfolding settle update_balance_n
settle-update_balance_n a [] e = refl
settle-update_balance_n a (f ∷ fs) e = elim (Option-cases (update_balance a f).1) [
  | inl passed ↦ ground (arith, settle-update_balance_n (update_balance a f).0 fs)
  | inr (x, failed) ↦ ground arith
]

mark_funded-sub_account :
    (c : FlowCategory) (a : Account) → sub_account c (mark_funded a) ≡ sub_account c a
unfolding mark_funded
mark_funded-sub_account FlowCategory.rewards a = refl
mark_funded-sub_account c a = refl

-- No flow takes a negative amount out.
unfoldable pub AllOut : List Flow → Type 0
AllOut [] = Unit {0}
AllOut (f ∷ fs) = (f.amount_out < 2 ^ 63) × AllOut fs

-- The flows that meet a test.
unfoldable pub keep : (Flow → Bool) → List Flow → List Flow
keep test [] = []
keep test (f ∷ fs) = let rest = keep test fs in if test f then f ∷ rest else rest

-- The flows of one account, as they stand in the block.
abbrev pub own : ℕ → List Flow → List Flow
own id fs = keep (λ f. id == f.account_id) fs

abbrev pub is_pure : Flow → Bool
is_pure f = f.amount_out == 0

-- First the flows that take nothing out, then those that do, each in the order of the block.
abbrev pub in_then_out : List Flow → List Flow
in_then_out fs = keep is_pure fs ++ keep (λ f. not (is_pure f)) fs

-- The flows of an account that the two loops take.
flows_of-keep :
    (id : ℕ) (fs : List Flow)
    → AllOut (own id fs)
    → (flows_of id has_out fs ≡ keep is_pure (own id fs))
      × (flows_of id has_no_out fs ≡ keep (λ f. not (is_pure f)) (own id fs))
unfolding flows_of keep AllOut lt64
flows_of-keep id [] all = (refl, refl)
flows_of-keep id (f ∷ fs) all = grind (arith, flows_of-keep id fs)

-- A sum is the same in any order.
add64_left_comm : (p x n : Int64) → add64 p (add64 x n) ≡ add64 x (add64 p n)
unfolding add64
add64_left_comm p x n = omega arith

add64-net : (c : FlowCategory) (fs : List Flow) → add64 0 (net c fs) ≡ net c fs
unfolding net add64
add64-net c [] = refl
add64-net c (f ∷ fs) = omega arith

net-append : (c : FlowCategory) (fs gs : List Flow) → net c (fs ++ gs) ≡ add64 (net c fs) (net c gs)
unfolding net
net-append c [] gs = sym (add64-net c gs)
net-append c (f ∷ fs) gs =
    let x = if same_category c f.category then change f else 0 in
    ap (add64 x) (net-append c fs gs) ∙ sym (add64_assoc x (net c fs) (net c gs))

-- The flows that meet a test and the others have the sum of all of them.
net-keep :
    (c : FlowCategory) (test : Flow → Bool) (fs : List Flow)
    → add64 (net c (keep test fs)) (net c (keep (λ f. not (test f)) fs)) ≡ net c fs
unfolding net keep
net-keep c test [] = add64-net c []
net-keep c test (f ∷ fs) =
    let x = if same_category c f.category then change f else 0 in
    let yes = net c (keep test fs) in
    let no = net c (keep (λ g. not (test g)) fs) in
    elim (Bool-cases (test f)) [
      | inl met ↦ rw met (add64_assoc x yes no ∙ ap (add64 x) (net-keep c test fs))
      | inr other ↦ rw other (add64_left_comm yes x no ∙ ap (add64 x) (net-keep c test fs))
    ]

net-in_then_out : (c : FlowCategory) (fs : List Flow) → net c (in_then_out fs) ≡ net c fs
net-in_then_out c fs =
    net-append c (keep is_pure fs) (keep (λ f. not (is_pure f)) fs) ∙ net-keep c is_pure fs

-- Where the maps have the account of every flow and `UpdateStats` succeeds, an account of the maps is
-- still there, and each of its freezer sub-accounts and its delegated balance has moved by the net sum of the
-- flows of that category that the block has for the account, each counted once, in int64 arithmetic.
-- The conditions: no flow of the account takes a negative amount out, and the account refuses none
-- of its flows, those that take nothing out being applied before the others.
pub update_stats-net :
    (hash_key : Address → ℕ) (endorsed : Op → Option Endorsement) (l l' : Ledger) (id : ℕ)
    (a : Account) (c : FlowCategory)
    → Known (mark_all l.accounts) l.block.flows
    → update_stats hash_key endorsed l ≡ ok l'
    → by_id l.accounts id ≡ some a
    → AllOut (own id l.block.flows)
    → (update_balance_n (mark_funded a) (in_then_out (own id l.block.flows))).1 ≡ none
    → c ≢ FlowCategory.balance
    → sub_account c a < 2 ^ 64
    → (b : Account) × (by_id l'.accounts id ≡ some b)
      × (sub_account c b ≡ add64 (sub_account c a) (net c (own id l.block.flows)))
update_stats-net hash_key endorsed l l' id a c k e at out passed n small =
    let mine = own id l.block.flows in
    let fs = in_then_out mine in
    let (first, second) = flows_of-keep id l.block.flows out in
    let order : applied id l.block.flows ≡ fs = rw (first, second) refl in
    let settled =
      subst
        (λ o.
          SameAmounts (by_id l'.accounts id)
            (on_some (λ x. settle post_update (mark_funded x) (applied id l.block.flows)) o))
        at (update_stats-Settled hash_key endorsed l l' k e id) in
    let (b, there, same) =
      found (by_id l'.accounts id) (settle post_update (mark_funded a) (applied id l.block.flows))
        settled in
    (
      b,
      there,
      SameBooks-sub_account c same
          ∙ ap (λ gs. sub_account c (settle post_update (mark_funded a) gs)) order
          ∙ ap (sub_account c) (settle-update_balance_n (mark_funded a) fs passed)
          ∙ update_balance_n-net c (mark_funded a) fs n (rw (mark_funded-sub_account c a) small)
              passed
          ∙ ap (λ x. add64 x (net c fs)) (mark_funded-sub_account c a)
          ∙ ap (add64 (sub_account c a)) (net-in_then_out c mine),
    )
