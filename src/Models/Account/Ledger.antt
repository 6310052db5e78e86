-- ===== src/Models/Account/Ledger.antt =====
-- puller/models/account.go: the sub-accounts of an account beside the sums of its flows.
use tezos_index.Common.{◌≡◌, ◌≢◌, ◌<◌, ◌^◌, arith, refl, sym, ◌∙◌, Bool, true, false}
use tezos_index.Common.{List, [], ◌∷◌, none, some, if◌then◌else◌, Option-cases, inl, inr}
use tezos_index.Common.Int64.{Int64, add64, add64_assoc, add64-IsInt64}
use tezos_index.Utils.MinMax.{max64}
use tezos_index.Models.FlowType.{FlowCategory}
use tezos_index.Models.Flow.{Flow}
use tezos_index.Models.Account.Defs.{Account}
use tezos_index.Models.Account.Books.{sub_account}
use tezos_index.Models.Account.Update.{Update, update_balance, update_balance_n, change}
use tezos_index.Models.Account.Update.{update_category, finish_update}

abbrev pub same_category : FlowCategory → FlowCategory → Bool
same_category FlowCategory.rewards FlowCategory.rewards = true
same_category FlowCategory.deposits FlowCategory.deposits = true
same_category FlowCategory.fees FlowCategory.fees = true
same_category FlowCategory.balance FlowCategory.balance = true
same_category FlowCategory.delegation FlowCategory.delegation = true
same_category _ _ = false

-- The sum of the flows of one category, in-flows less out-flows.
unfoldable pub net : FlowCategory → List Flow → Int64
net c [] = 0
net c (f ∷ fs) = add64 (if same_category c f.category then change f else 0) (net c fs)

zero_change : (x : Int64) → x < 2 ^ 64 → add64 x 0 ≡ x
unfolding add64
zero_change x h = omega arith

step :
    (c d : FlowCategory) (a : Account) (f : Flow)
    → c ≢ FlowCategory.balance
    → sub_account c a < 2 ^ 64
    → (update_category d a f).1 ≡ none
    → sub_account c (update_category d a f).0
      ≡ add64 (sub_account c a) (if same_category c d then change f else 0)
unfolding update_category
step FlowCategory.rewards FlowCategory.rewards a f n r done =
    ground (arith, zero_change (sub_account FlowCategory.rewards a))
step c d a f n r done = ground (arith, zero_change (sub_account c a))

finish_update-sub_account :
    (c : FlowCategory) (f : Flow) (u : Update)
    → ((finish_update f u).1 ≡ u.1) × (sub_account c (finish_update f u).0 ≡ sub_account c u.0)
unfolding finish_update
finish_update-sub_account FlowCategory.rewards f (a, none) = (refl, refl)
finish_update-sub_account FlowCategory.rewards f (a, some e) = (refl, refl)
finish_update-sub_account c f (a, none) = (refl, refl)
finish_update-sub_account c f (a, some e) = (refl, refl)

mark-sub_account :
    (c : FlowCategory) (a : Account)
    → sub_account c (record a { is_dirty = true }) ≡ sub_account c a
mark-sub_account FlowCategory.rewards a = refl
mark-sub_account c a = refl

-- One flow: the sub-account of the flow's category moves by the change, the others stay.
update_balance-sub_account :
    (c : FlowCategory) (a : Account) (f : Flow)
    → c ≢ FlowCategory.balance
    → sub_account c a < 2 ^ 64
    → (update_balance a f).1 ≡ none
    → sub_account c (update_balance a f).0
      ≡ add64 (sub_account c a) (if same_category c f.category then change f else 0)
unfolding update_balance
update_balance-sub_account c a f n r done =
    let marked : Account = record a { is_dirty = true } in
    let (e, kept) = finish_update-sub_account c f (update_category f.category marked f) in
    kept
    ∙ step c f.category marked f n (rw (mark-sub_account c a) r) (sym e ∙ done)
    ∙ rw (mark-sub_account c a)

-- After a list of flows with no error, each freezer sub-account and the delegated balance of the
-- account is what it was before plus the net sum of the flows of its category, in int64
-- arithmetic. (The spendable balance is raised to an out-flow that it does not cover, so it is
-- left out here.)
pub update_balance_n-net :
    (c : FlowCategory) (a : Account) (fs : List Flow)
    → c ≢ FlowCategory.balance
    → sub_account c a < 2 ^ 64
    → (update_balance_n a fs).1 ≡ none
    → sub_account c (update_balance_n a fs).0 ≡ add64 (sub_account c a) (net c fs)
unfolding update_balance_n net
update_balance_n-net c a [] n r done = sym (zero_change _ r)
update_balance_n-net c a (f ∷ fs) n r done = elim (Option-cases (update_balance a f).1) [
  | inl passed ↦
      let first = update_balance-sub_account c a f n r passed in
      let small : sub_account c (update_balance a f).0 < 2 ^ 64 = rw first (add64-IsInt64 _ _) in
      ground (
        arith,
        update_balance_n-net c (update_balance a f).0 fs n small,
        first,
        add64_assoc (sub_account c a) (if same_category c f.category then change f else 0)
            (net c fs),
      )
  | inr (e, failed) ↦ ground arith
]

-- A flow of the spendable balance that succeeds: the new balance is the larger of the old one and
-- the out-flow, plus the in-flow, less the out-flow.
pub update_balance-spendable :
    (a : Account) (f : Flow)
    → f.category ≡ FlowCategory.balance
    → (update_balance a f).1 ≡ none
    → (update_balance a f).0.spendable_balance
      ≡ add64 (max64 a.spendable_balance f.amount_out) (change f)
unfolding update_balance max64
update_balance-spendable a f c done = ground arith
