-- ===== src/Puller/Accounts/Laws.antt =====
-- puller/builder.go: what a lookup by id finds after a change of the maps.
use tezos_index.Common.{ℕ, ◌≡◌, refl, arith, List, [], ◌∷◌, Option, none, some, ◌==◌, if◌then◌else◌}
use tezos_index.Models.Account.{Account}
use tezos_index.Puller.Accounts.{Accounts, find, modify, or_else, by_id, modify_account}

-- A change that keeps the id of the account.
abbrev pub KeepsId : (Account → Account) → Type 0
KeepsId g = (a : Account) → (g a).row_id ≡ a.row_id

-- The account `j`, changed if it is the one with the id.
abbrev pub changed : ℕ → ℕ → (Account → Account) → Option Account → Option Account
changed j id g none = none
changed j id g (some a) = some (if j == id then g a else a)

module _ (id : ℕ) (g : Account → Account) (keeps : KeepsId g) where
  find-modify :
      (j : ℕ) (accs : List Account) → find j (modify id g accs) ≡ changed j id g (find j accs)
  unfolding find modify
  find-modify j [] = refl
  find-modify j (a ∷ accs) = grind (arith, find-modify j accs, keeps a)

  changed-or_else :
      (j : ℕ) (o o' : Option Account)
      → or_else (changed j id g o) (changed j id g o') ≡ changed j id g (or_else o o')
  changed-or_else j none o' = refl
  changed-or_else j (some a) o' = refl

  -- A change of one account is seen by a lookup of its id, and by no other.
  pub by_id-modify_account :
      (m : Accounts) (j : ℕ) → by_id (modify_account m id g) j ≡ changed j id g (by_id m j)
  unfolding by_id modify_account
  by_id-modify_account m j =
      rw (find-modify j m.dlg_map, find-modify j m.acc_map)
        (changed-or_else j (find j m.dlg_map) (find j m.acc_map))
