-- ===== src/Puller/Stats/Books.antt =====
-- puller/builder.go: what `UpdateStats` as a whole does to the amounts of the accounts.
use tezos_index.Common.{
  ℕ, ◌≡◌, refl, sym, ◌∙◌, arith, subst, List, [], ◌∷◌, Option, none, some, ◌==◌, if◌then◌else◌,
  Bool-cases, inl, inr, map, not, ◌||◌,
}
use tezos_index.Common.Int64.{Int64, lt64}
use tezos_index.Chain.Address.{Address}
use tezos_index.Models.Op.{Op}
use tezos_index.Models.Account.{Account}
use tezos_index.Models.Account.Books.{SameBooks}
use tezos_index.Models.Block.{Block}
use tezos_index.Models.Block.Totals as Totals
use tezos_index.Models.Chain as Chain
use tezos_index.Puller.Builder.{Outcome, ok, ◌>>=◌, deref}
use tezos_index.Puller.Builder.Laws.{
  >>=-eq-ok, Ends, Ends-ok, Ends-if, Ends-bind, Ends-each, Ends-weaken,
}
use tezos_index.Puller.Accounts.{Accounts, find, or_else, by_id, modify_account}
use tezos_index.Puller.Accounts.Laws.{KeepsId, changed, by_id-modify_account}
use tezos_index.Puller.Stats.{
  Ledger, Endorsement, mark_funded, mark_all, flip_delegation, count_delegation, count_delegations,
  count_rights, count_endorsements, count_missed, miss_slots, note_missed, update_accounts,
  slots_of, closed, total_up, update_stats,
}
use tezos_index.Puller.Stats.Flows.{
  settle, applied, on_some, on_some_twice, post_update, Known, update_flows-settle,
}

-- The same account in both maps, or none in either, by its amounts.
abbrev pub SameAmounts : Option Account → Option Account → Type 0
SameAmounts none none = Unit {0}
SameAmounts (some a) (some b) = SameBooks a b
SameAmounts _ _ = ⊥

-- An account that has the amounts of another one is there.
pub found :
    (o : Option Account) (b : Account)
    → SameAmounts o (some b)
    → (a : Account) × (o ≡ some a) × SameBooks a b
found none b s = absurd s
found (some a) b s = (a, refl, s)

SameAmounts-refl : (o : Option Account) → SameAmounts o o
SameAmounts-refl none = tt
SameAmounts-refl (some a) = ground arith

SameAmounts-trans : (o p q : Option Account) → SameAmounts o p → SameAmounts p q → SameAmounts o q
SameAmounts-trans none none none s t = tt
SameAmounts-trans none none (some c) s t = elim t [ ]
SameAmounts-trans none (some b) q s t = elim s [ ]
SameAmounts-trans (some a) none q s t = elim s [ ]
SameAmounts-trans (some a) (some b) none s t = elim t [ ]
SameAmounts-trans (some a) (some b) (some c) s t = ground arith

-- A change that leaves the amounts and the id alone.
pub record IsBookkeeping (g : Account → Account) : Type 0 where
  pub keeps : KeepsId g
  pub same : (a : Account) → SameBooks (g a) a

changed-SameAmounts :
    (j id : ℕ) (g : Account → Account)
    → IsBookkeeping g
    → (o : Option Account) → SameAmounts (changed j id g o) o
changed-SameAmounts j id g k none = tt
changed-SameAmounts j id g k (some a) = elim (Bool-cases (j == id)) [
  | inl e ↦ rw e (k.same a)
  | inr e ↦ rw e (SameAmounts-refl (some a))
]

abbrev pub AllSame : Accounts → Accounts → Type 0
AllSame m m' = (j : ℕ) → SameAmounts (by_id m' j) (by_id m j)

modify_account-AllSame :
    (m : Accounts) (id : ℕ) (g : Account → Account)
    → IsBookkeeping g
    → AllSame m (modify_account m id g)
modify_account-AllSame m id g k j =
    rw (by_id-modify_account id g k.keeps m j) (changed-SameAmounts j id g k (by_id m j))

AllSame-trans : (m n p : Accounts) → AllSame m n → AllSame n p → AllSame m p
AllSame-trans m n p s t j = SameAmounts-trans (by_id p j) (by_id n j) (by_id m j) (t j) (s j)

AllSame-refl : (m : Accounts) → AllSame m m
AllSame-refl m j = SameAmounts-refl (by_id m j)

flip_delegation-IsBookkeeping : (acc : Account) → IsBookkeeping (flip_delegation acc)
unfolding flip_delegation
flip_delegation-IsBookkeeping acc = record { keeps = λ a. refl; same = λ a. ground arith }

miss_slots-IsBookkeeping : (n : Int64) → IsBookkeeping (miss_slots n)
miss_slots-IsBookkeeping n = record { keeps = λ a. refl; same = λ a. ground arith }

count_delegation-AllSame :
    (height : Int64) (m : Accounts) (acc : Account)
    → Ends (AllSame m) (count_delegation height m acc)
unfolding count_delegation
count_delegation-AllSame height m acc =
    let flip : Account → Outcome Accounts =
      λ dlg. ok (modify_account m acc.delegate_id (flip_delegation acc)) in
    let found = deref (by_id m acc.delegate_id) >>= flip in
    let own = not acc.is_delegated || acc.delegate_id == acc.row_id in
    Ends-if (AllSame m) (acc.is_new || not (acc.last_seen == height)) (ok m)
      (if own then ok m else found) (AllSame-refl m)
      (Ends-if (AllSame m) own (ok m) found (AllSame-refl m) (
        Ends-each (AllSame m) (deref (by_id m acc.delegate_id)) flip (λ dlg.
          modify_account-AllSame m acc.delegate_id (flip_delegation acc)
            (flip_delegation-IsBookkeeping acc))))

pub count_delegations-AllSame :
    (height : Int64) (accs : List Account) (m : Accounts)
    → Ends (AllSame m) (count_delegations height m accs)
unfolding count_delegations
count_delegations-AllSame height [] m = AllSame-refl m
count_delegations-AllSame height (acc ∷ accs) m =
    Ends-bind (AllSame m) (AllSame m) (count_delegation height m acc) _
      (count_delegation-AllSame height m acc)
      (λ n s.
        Ends-weaken (AllSame n) (AllSame m) (count_delegations height n accs)
          (count_delegations-AllSame height accs n) (λ p t. AllSame-trans m n p s t))

note_missed-AllSame : (rs : List (ℕ × Int64)) (m : Accounts) → Ends (AllSame m) (note_missed m rs)
unfolding note_missed
note_missed-AllSame [] m = AllSame-refl m
note_missed-AllSame (r ∷ rs) m =
    let miss : Account → Outcome Accounts = λ acc. ok (modify_account m r.0 (miss_slots r.1)) in
    let found = deref (by_id m r.0) >>= miss in
    Ends-bind (AllSame m) (AllSame m) (if lt64 0 r.1 then found else ok m) (λ n. note_missed n rs)
      (Ends-if (AllSame m) (lt64 0 r.1) found (ok m)
        (Ends-each (AllSame m) (deref (by_id m r.0)) miss
          (λ acc. modify_account-AllSame m r.0 (miss_slots r.1) (miss_slots-IsBookkeeping r.1)))
        (AllSame-refl m))
      (λ n s.
        Ends-weaken (AllSame n) (AllSame m) (note_missed n rs) (note_missed-AllSame rs n)
          (λ p t. AllSame-trans m n p s t))

-- The accounts as the loops start.
find-map :
    (id : ℕ) (accs : List Account)
    → find id (map mark_funded accs) ≡ on_some mark_funded (find id accs)
unfolding find mark_funded
find-map id [] = refl
find-map id (a ∷ accs) = grind (arith, find-map id accs)

or_else-on_some :
    (g : Account → Account) (o p : Option Account)
    → or_else (on_some g o) (on_some g p) ≡ on_some g (or_else o p)
or_else-on_some g none p = refl
or_else-on_some g (some a) p = refl

pub by_id-mark_all :
    (m : Accounts) (id : ℕ) → by_id (mark_all m) id ≡ on_some mark_funded (by_id m id)
unfolding by_id mark_all
by_id-mark_all m id =
    rw (find-map id m.dlg_map, find-map id m.acc_map)
      (or_else-on_some mark_funded (find id m.dlg_map) (find id m.acc_map))

-- The accounts as the flows leave them.
abbrev pub Settled : Ledger → Accounts → Type 0
Settled l m =
    (id : ℕ)
    → SameAmounts (by_id m id) (
        on_some (λ a. settle post_update (mark_funded a) (applied id l.block.flows))
          (by_id l.accounts id))

module _ (hash_key : Address → ℕ) (endorsed : Op → Option Endorsement) where
  count_missed-AllSame :
      (l : Ledger) (m : Accounts) → Ends (AllSame m) (count_missed hash_key endorsed l m)
  unfolding count_missed
  count_missed-AllSame l m =
      Ends-each (AllSame m) (count_rights m [] l.endorsing)
        (λ rights.
          count_endorsements hash_key endorsed m l.block.ops rights >>= λ left. note_missed m left)
        (λ rights.
          Ends-each (AllSame m) (count_endorsements hash_key endorsed m l.block.ops rights)
            (λ left. note_missed m left) (λ left. note_missed-AllSame left m))

  -- After the flows, nothing touches an amount.
  counts-AllSame :
      (l : Ledger) (m : Accounts)
      → Ends (AllSame m) (
          count_delegations l.block.height m m.acc_map >>= λ m'.
          count_missed hash_key endorsed l m')
  counts-AllSame l m =
      Ends-bind (AllSame m) (AllSame m) (count_delegations l.block.height m m.acc_map)
        (λ m'. count_missed hash_key endorsed l m')
        (count_delegations-AllSame l.block.height m.acc_map m)
        (λ n s.
          Ends-weaken (AllSame n) (AllSame m) (count_missed hash_key endorsed l n)
            (count_missed-AllSame l n) (λ p t. AllSame-trans m n p s t))

  Settled-AllSame :
      (l : Ledger) (m m' : Accounts)
      → ((id : ℕ)
          → by_id m id
            ≡ on_some
                (λ a. settle post_update a (applied id l.block.flows))
                (by_id (mark_all l.accounts) id))
      → AllSame m m'
      → Settled l m'
  Settled-AllSame l m m' at s id =
      subst (SameAmounts (by_id m' id))
        (at id ∙ rw (by_id-mark_all l.accounts id) (on_some_twice _ _ (by_id l.accounts id))) (s id)

  update_accounts-Settled :
      (l : Ledger)
      → Known (mark_all l.accounts) l.block.flows
      → Ends (Settled l) (update_accounts hash_key endorsed l)
  unfolding update_accounts
  update_accounts-Settled l k =
      let (m, e, at) = update_flows-settle (mark_all l.accounts) l.block.flows k in
      subst
        (λ (o : Outcome Accounts). Ends (Settled l) (
          o >>= λ n. count_delegations l.block.height n n.acc_map >>= λ m'.
          count_missed hash_key endorsed l m'))
        (sym e)
        (Ends-weaken (AllSame m) (Settled l) _ (counts-AllSame l m)
          (λ m' s. Settled-AllSame l m m' at s))

  total_up-accounts :
      (l : Ledger) (m : Accounts) → Ends (λ r. r.accounts ≡ m) (total_up hash_key endorsed l m)
  unfolding total_up
  total_up-accounts l m =
      let close : Block → ℕ → Outcome Ledger = λ block slots.
        deref (Chain.update l.chain block m.dlg_map) >>= λ chain.
        ok (closed l m block slots chain) in
      Ends-each (λ r. r.accounts ≡ m)
        (deref (Totals.update (slots_of hash_key endorsed) l.block m.acc_map m.dlg_map))
        (λ (block, slots). close block slots)
        (λ (block, slots).
          Ends-each (λ r. r.accounts ≡ m) (deref (Chain.update l.chain block m.dlg_map))
            (λ chain. ok (closed l m block slots chain)) (λ chain. refl))

  -- Where the maps have the account of every flow and `UpdateStats` succeeds, the amounts of each
  -- account are what its own flows make of them, one after the other: first those with no positive
  -- out-amount, then those with an out-amount, both in the order of the block. What the counts of
  -- delegations and of missed slots change is no amount, and no account comes or goes.
  pub update_stats-Settled :
      (l l' : Ledger)
      → Known (mark_all l.accounts) l.block.flows
      → update_stats hash_key endorsed l ≡ ok l'
      → Settled l l'.accounts
  unfolding update_stats
  update_stats-Settled l l' k e =
      let (m, made, rest) =
        >>=-eq-ok (update_accounts hash_key endorsed l) (total_up hash_key endorsed l) l' e in
      subst (Settled l)
        (sym (
          Ends-ok (λ r. r.accounts ≡ m) (total_up hash_key endorsed l m) l' (total_up-accounts l m)
            rest))
        (Ends-ok (Settled l) (update_accounts hash_key endorsed l) m (update_accounts-Settled l k)
          made)
