-- ===== src/Puller/Accounts.antt =====
-- puller/builder.go: the accounts that the builder holds, as a store. Go keeps a pointer to an
-- account in a map by its id and in one by the hash of its address. Here the maps by id hold the
-- accounts, and the maps by hash hold ids: a change through a pointer is seen through every map.
pub mod Laws
pub mod Delegates
use tezos_index.Common.{
  ℕ, Bool, true, false, not, ◌&&◌, ◌||◌, List, [], ◌∷◌, Option, none, some, ◌==◌, if◌then◌else◌,
  map,
}
use tezos_index.Common.Int64.{Int64}
use tezos_index.Chain.Params.{Params}
use tezos_index.Chain.Address.{Address}
use tezos_index.Models.Account.{Account, init_grace_period}
use tezos_index.Puller.Builder.{matches}

pub record Accounts : Type 0 where
  pub acc_map : List Account
  pub dlg_map : List Account
  pub acc_hash_map : ℕ → Option ℕ
  pub dlg_hash_map : ℕ → Option ℕ

-- `m[id]`
unfoldable pub find : ℕ → List Account → Option Account
find id [] = none
find id (a ∷ accs) = let rest = find id accs in if a.row_id == id then some a else rest

-- `delete(m, id)`
unfoldable pub remove : ℕ → List Account → List Account
remove id [] = []
remove id (a ∷ accs) = let rest = remove id accs in if a.row_id == id then rest else a ∷ rest

-- `m[a.RowId] = a`
abbrev pub insert : Account → List Account → List Account
insert a accs = a ∷ remove a.row_id accs

-- A change of the account that has an id.
unfoldable pub modify : ℕ → (Account → Account) → List Account → List Account
modify id g [] = []
modify id g (a ∷ accs) = (if a.row_id == id then g a else a) ∷ modify id g accs

-- The first of two results.
abbrev pub or_else : Option Account → Option Account → Option Account
or_else none o = o
or_else (some a) o = some a

-- `AccountById`: delegates first.
unfoldable pub by_id : Accounts → ℕ → Option Account
unfolding find
by_id m id = or_else (find id m.dlg_map) (find id m.acc_map)

-- A change through a pointer to the account that has an id.
unfoldable pub modify_account : Accounts → ℕ → (Account → Account) → Accounts
unfolding modify
modify_account m id g = record m {
  acc_map = modify id g m.acc_map;
  dlg_map = modify id g m.dlg_map;
}

-- `ok && acc.Type == addr.Type && bytes.Compare(acc.Hash, addr.Hash) == 0`
abbrev pub if_matches : Address → Option Account → Option Account
if_matches addr none = none
if_matches addr (some acc) = if matches addr acc then some acc else none

-- The account that a map by hash points to.
abbrev pub follow : Accounts → Option ℕ → Option Account
follow m none = none
follow m (some id) = by_id m id

-- `AccountByAddress`: delegates first. The key is a 64-bit hash of the address's type and bytes,
-- which comes from a third-party package.
unfoldable pub by_address : (Address → ℕ) → Accounts → Address → Option Account
unfolding by_id
by_address hash_key m addr =
    let key = hash_key addr in
    or_else (if_matches addr (follow m (m.dlg_hash_map key)))
      (if_matches addr (follow m (m.acc_hash_map key)))

-- `m[key] = v` and `delete(m, key)` of a map by hash.
abbrev pub set_key : ℕ → Option ℕ → (ℕ → Option ℕ) → ℕ → Option ℕ
set_key key v m k = if k == key then v else m k

-- `ActivateDelegate`, on the account.
unfoldable pub activate_delegate : Account → Account
activate_delegate acc = record acc { is_active_delegate = true; is_dirty = true }

-- `DeactivateDelegate`, on the account.
unfoldable pub deactivate_delegate : Account → Account
deactivate_delegate acc = record acc { is_active_delegate = false; is_dirty = true }

-- What `RegisterDelegate` makes of the account, in a block of a height and a cycle.
unfoldable pub to_delegate : Int64 → Int64 → Params → Account → Account
unfolding activate_delegate init_grace_period
to_delegate height cycle p acc =
    activate_delegate
      (record (init_grace_period
        (record acc { is_delegate = true; last_seen = height; delegate_since = height }) cycle p) {
          is_dirty = true;
        })

-- What `UnregisterDelegate` makes of the account.
unfoldable pub to_account : Account → Account
to_account acc = record acc {
  delegate_id = 0;
  is_delegate = false;
  is_active_delegate = false;
  delegate_since = 0;
  total_delegations = 0;
  active_delegations = 0;
  grace_period = 0;
  is_dirty = true;
}

abbrev pub address_of : Account → Address
address_of acc = record { type = acc.type; hash = acc.hash }

-- `RegisterDelegate`: the account goes from the accounts to the delegates.
unfoldable pub register_delegate :
    (Address → ℕ) → Int64 → Int64 → Params → Accounts → Account → Accounts
unfolding to_delegate remove
register_delegate hash_key height cycle p m acc =
    let dlg = to_delegate height cycle p acc in
    let key = hash_key (address_of dlg) in
    record {
      dlg_map = insert dlg m.dlg_map;
      dlg_hash_map = set_key key (some dlg.row_id) m.dlg_hash_map;
      acc_map = remove dlg.row_id m.acc_map;
      acc_hash_map = set_key key none m.acc_hash_map;
    }

-- `UnregisterDelegate`: the account goes back.
unfoldable pub unregister_delegate : (Address → ℕ) → Accounts → Account → Accounts
unfolding to_account remove
unregister_delegate hash_key m dlg =
    let acc = to_account dlg in
    let key = hash_key (address_of acc) in
    record {
      acc_map = insert acc m.acc_map;
      acc_hash_map = set_key key (some acc.row_id) m.acc_hash_map;
      dlg_map = remove acc.row_id m.dlg_map;
      dlg_hash_map = set_key key none m.dlg_hash_map;
    }
