-- ===== src/Puller/Accounts/Delegates.antt =====
-- puller/builder.go: `RegisterDelegate` and `UnregisterDelegate` beside the lookups.
use tezos_index.Common.{
  ℕ, ◌≡◌, ◌≢◌, refl, ap, ◌∙◌, arith, Bool, true, false, List, [], ◌∷◌, Option, none, some, ◌==◌,
  if◌then◌else◌, Bool-cases, inl, inr,
}
use tezos_index.Common.Int64.{Int64}
use tezos_index.Chain.Params.{Params}
use tezos_index.Chain.Address.{AddressType, Address, same_type}
use tezos_index.Models.Account.{Account}
use tezos_index.Common.{same_bytes_self}
use tezos_index.Puller.Builder.{matches}
use tezos_index.Puller.Accounts.{
  Accounts, find, remove, insert, or_else, by_id, to_delegate, to_account, register_delegate,
  unregister_delegate, if_matches, follow, by_address, address_of,
}

find-remove :
    (j id : ℕ) (accs : List Account)
    → find j (remove id accs) ≡ (if j == id then none else find j accs)
unfolding find remove
find-remove j id [] = ground arith
find-remove j id (a ∷ accs) = grind (arith, find-remove j id accs)

find-insert :
    (j : ℕ) (a : Account) (accs : List Account)
    → find j (insert a accs) ≡ (if j == a.row_id then some a else find j accs)
unfolding find
find-insert j a accs = grind (arith, find-remove j a.row_id accs)

-- All are marked as delegates, or none is.
unfoldable pub AllAre : Bool → List Account → Type 0
AllAre d [] = Unit {0}
AllAre d (a ∷ accs) = (a.is_delegate ≡ d) × AllAre d accs

-- The maps are split: no id is in both, and the delegates are those marked so.
abbrev pub IsSplit : Accounts → Type 0
IsSplit m =
    AllAre true m.dlg_map
    × AllAre false m.acc_map
    × ((id : ℕ) → find id m.dlg_map ≢ none → find id m.acc_map ≡ none)

AllAre-remove :
    (d : Bool) (id : ℕ) (accs : List Account) → AllAre d accs → AllAre d (remove id accs)
unfolding AllAre remove
AllAre-remove d id [] h = tt
AllAre-remove d id (a ∷ accs) h = elim (Bool-cases (a.row_id == id)) [
  | inl e ↦ rw e (AllAre-remove d id accs h.1)
  | inr e ↦ rw e (h.0, AllAre-remove d id accs h.1)
]

AllAre-insert :
    (d : Bool) (a : Account) (accs : List Account)
    → a.is_delegate ≡ d
    → AllAre d accs
    → AllAre d (insert a accs)
unfolding AllAre
AllAre-insert d a accs e h = (e, AllAre-remove d a.row_id accs h)

-- A move between two maps: out of one and into the other.
or_else-move :
    (same : Bool) (a : Account) (o p : Option Account)
    → (or_else (if same then some a else o) (if same then none else p)
        ≡ (if same then some a else or_else o p))
      × (or_else (if same then none else o) (if same then some a else p)
          ≡ (if same then some a else or_else o p))
or_else-move true a o p = (refl, refl)
or_else-move false a o p = (refl, refl)

module _ (hash_key : Address → ℕ) where
  -- After `RegisterDelegate` the id of the account finds the delegate that it has become, and every
  -- other id finds what it found before.
  pub by_id-register_delegate :
      (height cycle : Int64) (p : Params) (m : Accounts) (acc : Account) (id : ℕ)
      → by_id (register_delegate hash_key height cycle p m acc) id
        ≡ (if id == acc.row_id then some (to_delegate height cycle p acc) else by_id m id)
  unfolding by_id register_delegate to_delegate
  by_id-register_delegate height cycle p m acc id =
      let dlg = to_delegate height cycle p acc in
      ap (λ o. or_else o (find id (remove acc.row_id m.acc_map))) (find-insert id dlg m.dlg_map)
      ∙ rw (find-remove id acc.row_id m.acc_map)
          (or_else-move (id == acc.row_id) dlg (find id m.dlg_map) (find id m.acc_map)).0

  by_id-unregister_delegate :
      (m : Accounts) (dlg : Account) (id : ℕ)
      → by_id (unregister_delegate hash_key m dlg) id
        ≡ (if id == dlg.row_id then some (to_account dlg) else by_id m id)
  unfolding by_id unregister_delegate to_account
  by_id-unregister_delegate m dlg id =
      let acc = to_account dlg in
      ap (or_else (find id (remove dlg.row_id m.dlg_map))) (find-insert id acc m.acc_map)
      ∙ rw (find-remove id dlg.row_id m.dlg_map)
          (or_else-move (id == dlg.row_id) acc (find id m.dlg_map) (find id m.acc_map)).1

  -- `RegisterDelegate` and `UnregisterDelegate` keep the maps split: no id is in both, the accounts
  -- of one are all marked as delegates, and none of the other is.
  pub delegates-IsSplit :
      (height cycle : Int64) (p : Params) (m : Accounts) (acc : Account)
      → IsSplit m
      → IsSplit (register_delegate hash_key height cycle p m acc)
        × IsSplit (unregister_delegate hash_key m acc)
  unfolding register_delegate unregister_delegate to_delegate to_account
  delegates-IsSplit height cycle p m acc (ds, ns, apart) = (
    (
      AllAre-insert true (to_delegate height cycle p acc) m.dlg_map refl ds,
      AllAre-remove false acc.row_id m.acc_map ns,
      λ id.
          rw
            (
              find-insert id (to_delegate height cycle p acc) m.dlg_map,
              find-remove id acc.row_id m.acc_map,
            )
            (ground (arith, apart id)),
    ),
    (
      AllAre-remove true acc.row_id m.dlg_map ds,
      AllAre-insert false (to_account acc) m.acc_map refl ns,
      λ id.
          rw (find-insert id (to_account acc) m.acc_map, find-remove id acc.row_id m.dlg_map)
            (ground (arith, apart id)),
    ),
  )

same_type_self : (t : AddressType) → same_type t t ≡ true
same_type_self t = ground arith

matches_self : (acc : Account) → matches (address_of acc) acc ≡ true
matches_self acc = rw (same_type_self acc.type, same_bytes_self acc.hash) refl

key_self : (k : ℕ) {A : Type 0} (x y : A) → (if k == k then x else y) ≡ x
key_self k x y = ground arith

module _ (hash_key : Address → ℕ) where
  -- `AccountByAddress` finds an account after `RegisterDelegate` and after `UnregisterDelegate`, as
  -- what it has become, by the address that it has.
  pub by_address-delegates :
      (height cycle : Int64) (p : Params) (m : Accounts) (acc : Account)
      → (by_address hash_key (register_delegate hash_key height cycle p m acc) (address_of acc)
          ≡ some (to_delegate height cycle p acc))
        × (by_address hash_key (unregister_delegate hash_key m acc) (address_of acc)
            ≡ some (to_account acc))
  unfolding by_address register_delegate unregister_delegate to_delegate to_account
  by_address-delegates height cycle p m acc =
      let key = hash_key (address_of acc) in
      let registered = register_delegate hash_key height cycle p m acc in
      let unregistered = unregister_delegate hash_key m acc in
      (
        rw (key_self key (some acc.row_id) (m.dlg_hash_map key)) (
            ap
              (λ o.
                or_else (if_matches (address_of acc) o)
                  (if_matches (address_of acc) (follow registered (registered.acc_hash_map key))))
              (by_id-register_delegate hash_key height cycle p m acc acc.row_id
                ∙ key_self acc.row_id (some (to_delegate height cycle p acc)) (by_id m acc.row_id))
            ∙ ap
                (λ b.
                  or_else (if b then some (to_delegate height cycle p acc) else none)
                    (if_matches (address_of acc) (follow registered (registered.acc_hash_map key))))
                (matches_self acc)),
        let no_id : Option ℕ = none in
            rw
              (
                key_self key no_id (m.dlg_hash_map key),
                key_self key (some acc.row_id) (m.acc_hash_map key),
              )
              (ap (if_matches (address_of acc)) (
                  by_id-unregister_delegate hash_key m acc acc.row_id
                  ∙ key_self acc.row_id (some (to_account acc)) (by_id m acc.row_id))
                ∙ ap (λ b. if b then some (to_account acc) else none) (matches_self acc)),
      )
