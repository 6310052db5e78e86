-- ===== src/Puller/Builder.antt =====
-- puller/builder.go: the state of the block builder, as far as flows and balances need it, and what
-- a call of it returns.
pub mod Laws
use tezos_index.Common.{ℕ, Bool, true, false, ◌&&◌, List, [], ◌∷◌, ◌++◌, Option, none, some, ◌==◌}
use tezos_index.Common.{if◌then◌else◌, same_bytes}
use tezos_index.Chain.Address.{Address, same_type}
use tezos_index.Models.Flow.{Flow}
use tezos_index.Models.Account.{Account}
use tezos_index.Models.Account.Update.{BalanceError}
use tezos_index.Models.Block.{Block}

pub data BuildError : Type 0 where
  missing_account bad_vesting_storage no_income : BuildError
  bad_balance : BalanceError → BuildError

-- What a call gives back: a value, an error, or a run-time panic (a nil dereference, a failed type
-- assertion).
pub data Outcome (A : Type 0) : Type 0 where
  ok : A → Outcome A
  err : BuildError → Outcome A
  panic : Outcome A

infixl 5 ◌>>=◌
abbrev pub ◌>>=◌ : {A B : Type 0} → Outcome A → (A → Outcome B) → Outcome B
ok a >>= f = f a
err e >>= f = err e
panic >>= f = panic

-- The use of a pointer that may be nil.
abbrev pub deref : {A : Type 0} → Option A → Outcome A
deref none = panic
deref (some a) = ok a

-- `Builder`: the block being built and the accounts by the hash of their address and by their id.
-- A Go map is the function that looks a key up.
pub record Builder : Type 0 where
  pub block : Block
  pub acc_hash_map : ℕ → Option Account
  pub acc_map : ℕ → Option Account
  pub dlg_hash_map : ℕ → Option Account
  pub dlg_map : ℕ → Option Account

abbrev pub matches : Address → Account → Bool
matches addr acc = same_type acc.type addr.type && same_bytes acc.hash addr.hash

abbrev pub lookup_matching : (ℕ → Option Account) → ℕ → Address → Option Account
lookup_matching m key addr = elim (m key) [
  | none ↦ none
  | some acc ↦ if matches addr acc then some acc else none
]

-- `AccountByAddress`: delegates first. The key is a 64-bit hash of the address's type and bytes,
-- which comes from a third-party package.
unfoldable pub account_by_address : (Address → ℕ) → Builder → Address → Option Account
account_by_address hash_key b addr =
    let key = hash_key addr in
    elim (lookup_matching b.dlg_hash_map key addr) [
      | some acc ↦ some acc
      | none ↦ lookup_matching b.acc_hash_map key addr
    ]

-- `AccountById`: delegates first.
unfoldable pub account_by_id : Builder → ℕ → Option Account
account_by_id b id = elim (b.dlg_map id) [ some acc ↦ some acc | none ↦ b.acc_map id ]

-- `b.block.Flows = append(b.block.Flows, flows...); return flows, nil`
unfoldable pub commit : Builder → List Flow → Outcome (Builder × List Flow)
commit b flows = ok (record b { block = record b.block { flows = b.block.flows ++ flows } }, flows)
