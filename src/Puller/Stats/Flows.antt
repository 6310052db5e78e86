-- ===== src/Puller/Stats/Flows.antt =====
-- puller/builder.go: what the loops of `UpdateStats` over the flows do to one account.
use tezos_index.Common.{
  ℕ, ◌≡◌, ◌≢◌, refl, sym, ap, ◌∙◌, Bool, false, not, ◌&&◌, List, [], ◌∷◌, ◌++◌, Option, none, some,
  ◌==◌, if◌then◌else◌, Bool-cases, Option-cases, inl, inr,
}
use tezos_index.Models.Flow.{Flow}
use tezos_index.Models.Account.{Account}
use tezos_index.Models.Account.Update.{update_balance}
use tezos_index.Models.Account.Ids.{update_balance-row_id}
use tezos_index.Puller.Builder.{BuildError, Outcome, ok, err}
use tezos_index.Puller.Builder.Laws.{>>=-eq-ok, ok-injective}
use tezos_index.Puller.Accounts.{Accounts, by_id, modify_account}
use tezos_index.Puller.Accounts.Laws.{changed, by_id-modify_account}
use tezos_index.Puller.Stats.{each_flow, update_flow, update_flows, has_out, has_no_out}

-- The flows of one account that a loop does not skip, in their order.
unfoldable pub flows_of : ℕ → (Flow → Bool) → List Flow → List Flow
flows_of id skip [] = []
flows_of id skip (f ∷ fs) =
    let rest = flows_of id skip fs in if not (skip f) && id == f.account_id then f ∷ rest else rest

-- The account after a list of flows, one after the other.
unfoldable pub settle : (Account → Flow → Account) → Account → List Flow → Account
settle post a [] = a
settle post a (f ∷ fs) = settle post (post a f) fs

abbrev pub on_some : (Account → Account) → Option Account → Option Account
on_some g none = none
on_some g (some a) = some (g a)

-- A turn of a loop changes the account of the flow, by `post`.
abbrev pub Posts : (Account → Flow → Account) → (Accounts → Flow → Outcome Accounts) → Type 0
Posts post turn =
    (m m' : Accounts) (f : Flow) (j : ℕ)
    → turn m f ≡ ok m'
    → by_id m' j ≡ changed j f.account_id (λ a. post a f) (by_id m j)

on_some_self : (o : Option Account) → on_some (λ a. a) o ≡ o
on_some_self none = refl
on_some_self (some a) = refl

pub on_some_cong :
    {g h : Account → Account} (same : (a : Account) → g a ≡ h a) (o : Option Account)
    → on_some g o ≡ on_some h o
on_some_cong same none = refl
on_some_cong same (some a) = ap (λ (x : Account). some x) (same a)

module _ (post : Account → Flow → Account) (turn : Accounts → Flow → Outcome Accounts)
    (posts : Posts post turn) where
  settle_first :
      (skip : Flow → Bool) (f : Flow) (fs : List Flow) (j : ℕ) (o : Option Account)
      → skip f ≡ false
      → on_some (λ a. settle post a (flows_of j skip fs)) (changed j f.account_id (λ a. post a f) o)
        ≡ on_some (λ a. settle post a (flows_of j skip (f ∷ fs))) o
  unfolding settle flows_of
  settle_first skip f fs j none e = refl
  settle_first skip f fs j (some a) e = elim (Bool-cases (j == f.account_id)) [
    | inl same ↦ rw (e, same) refl
    | inr other ↦ rw (e, other) refl
  ]

  pub each_flow-by_id :
      (skip : Flow → Bool) (fs : List Flow) (m m' : Accounts) (j : ℕ)
      → each_flow turn skip m fs ≡ ok m'
      → by_id m' j ≡ on_some (λ a. settle post a (flows_of j skip fs)) (by_id m j)
  unfolding each_flow settle flows_of
  each_flow-by_id skip [] m m' j e =
      sym (ap (λ x. by_id x j) (ok-injective e)) ∙ sym (on_some_self (by_id m j))
  each_flow-by_id skip (f ∷ fs) m m' j e =
      let (m1, first, rest) =
        >>=-eq-ok (if skip f then ok m else turn m f) (λ x. each_flow turn skip x fs) m' e in
      let later = each_flow-by_id skip fs m1 m' j rest in
      elim (Bool-cases (skip f)) [
        | inl skipped ↦
            let same : ok m ≡ ok m1 = sym (unless skipped) ∙ first in
            later
            ∙ ap (λ x. on_some (λ a. settle post a (flows_of j skip fs)) (by_id x j))
                (sym (ok-injective same))
            ∙ rw skipped refl
        | inr taken ↦
            let same : turn m f ≡ ok m1 = sym (unless taken) ∙ first in
            later ∙ rw (posts m m1 f j same) (settle_first skip f fs j (by_id m j) taken)
      ]
    where
      unless :
          {b : Bool}
          → skip f ≡ b
          → (if skip f then ok m else turn m f) ≡ (if b then ok m else turn m f)
      unless e = rw e refl

-- Every flow has its account in the maps.
unfoldable pub Known : Accounts → List Flow → Type 0
Known m [] = Unit {0}
Known m (f ∷ fs) = (by_id m f.account_id ≢ none) × Known m fs

changed_some :
    (j id : ℕ) (g : Account → Account) (o : Option Account) → o ≢ none → changed j id g o ≢ none
changed_some j id g none n e = n refl
changed_some j id g (some a) n e = cc

module _ (post : Account → Flow → Account) (turn : Accounts → Flow → Outcome Accounts)
    (posts : Posts post turn) where
  Known-turn :
      (m m' : Accounts) (f : Flow) (fs : List Flow) → turn m f ≡ ok m' → Known m fs → Known m' fs
  unfolding Known
  Known-turn m m' f [] e k = tt
  Known-turn m m' f (g ∷ fs) e k = (
    λ n.
        changed_some g.account_id f.account_id (λ a. post a f) (by_id m g.account_id) k.0
          (sym (posts m m' f g.account_id e) ∙ n),
    Known-turn m m' f fs e k.1,
  )

  -- A loop whose turns succeed on known accounts succeeds, and the accounts stay known.
  pub each_flow-Known :
      (skip : Flow → Bool)
      → ((m : Accounts) (f : Flow)
          → by_id m f.account_id ≢ none
          → (m' : Accounts) × (turn m f ≡ ok m'))
      → (fs gs : List Flow) (m : Accounts) → Known m fs
      → Known m gs
      → (m' : Accounts) × (each_flow turn skip m fs ≡ ok m') × Known m' gs
  unfolding each_flow Known
  each_flow-Known skip answers [] gs m k kg = (m, refl, kg)
  each_flow-Known skip answers (f ∷ fs) gs m k kg = elim (Bool-cases (skip f)) [
    | inl skipped ↦
        let (m', e, k') = each_flow-Known skip answers fs gs m k.1 kg in (m', rw skipped e, k')
    | inr taken ↦
        let (m1, e1) = answers m f k.0 in
        let (m', e, k') =
          each_flow-Known skip answers fs gs m1 (Known-turn m m1 f fs e1 k.1)
            (Known-turn m m1 f gs e1 kg) in
        (m', rw (taken, e1) e, k')
  ]

-- `UpdateBalance`, whose error is dropped.
abbrev pub post_update : Account → Flow → Account
post_update a f = (update_balance a f).0

update_flow-Posts : Posts post_update update_flow
unfolding update_flow
update_flow-Posts m m' f j e =
    sym (ap (λ x. by_id x j) (made (by_id m f.account_id) e))
    ∙ by_id-modify_account f.account_id (λ a. post_update a f) (update_balance-row_id f) m j
  where
    made :
        (o : Option Account)
        → (elim o [
          | none ↦ err BuildError.missing_account
          | some acc ↦ ok (modify_account m f.account_id (λ a. post_update a f))
        ])
          ≡ ok m'
        → modify_account m f.account_id (λ a. post_update a f) ≡ m'
    made none e = cc
    made (some acc) e = ok-injective e

update_flow-answers :
    (m : Accounts) (f : Flow)
    → by_id m f.account_id ≢ none
    → (m' : Accounts) × (update_flow m f ≡ ok m')
unfolding update_flow
update_flow-answers m f k = elim (Option-cases (by_id m f.account_id)) [
  | inl gone ↦ absurd (k gone)
  | inr (acc, found) ↦
      (modify_account m f.account_id (λ a. post_update a f), rw (update_flow, found) refl)
]

pub settle-append :
    (post : Account → Flow → Account) (a : Account) (fs gs : List Flow)
    → settle post (settle post a fs) gs ≡ settle post a (fs ++ gs)
unfolding settle
settle-append post a [] gs = refl
settle-append post a (f ∷ fs) gs = settle-append post (post a f) fs gs

pub on_some_twice :
    (g h : Account → Account) (o : Option Account)
    → on_some h (on_some g o) ≡ on_some (λ a. h (g a)) o
on_some_twice g h none = refl
on_some_twice g h (some a) = refl

-- The flows of one account in the order in which `UpdateStats` applies them.
abbrev pub applied : ℕ → List Flow → List Flow
applied id fs = flows_of id has_out fs ++ flows_of id has_no_out fs

-- Where the maps have the account of every flow, the two loops of `UpdateStats` succeed, and each
-- account is what its own flows make of it, one after the other: first those with no positive
-- out-amount, then those with an out-amount, both in the order of the block. Flows of other accounts
-- do not touch it.
pub update_flows-settle :
    (m : Accounts) (fs : List Flow)
    → Known m fs
    → (m' : Accounts) × (update_flows m fs ≡ ok m')
      × ((id : ℕ) → by_id m' id ≡ on_some (λ a. settle post_update a (applied id fs)) (by_id m id))
unfolding update_flows
update_flows-settle m fs k =
    let (m1, e1, k1) =
      each_flow-Known post_update update_flow update_flow-Posts has_out update_flow-answers fs fs m
        k k in
    let (m2, e2, k2) =
      each_flow-Known post_update update_flow update_flow-Posts has_no_out update_flow-answers fs fs
        m1 k1 k1 in
    let loop = each_flow-by_id post_update update_flow update_flow-Posts in
    (
      m2,
      rw e1 e2,
      λ id.
          loop has_no_out fs m1 m2 id e2
          ∙ ap (on_some (λ a. settle post_update a (flows_of id has_no_out fs)))
              (loop has_out fs m m1 id e1)
          ∙ on_some_twice _ _ (by_id m id)
          ∙ on_some_cong
              (λ a.
                settle-append post_update a (flows_of id has_out fs) (flows_of id has_no_out fs))
              (by_id m id),
    )
