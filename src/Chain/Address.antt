-- ===== src/Chain/Address.antt =====
-- chain/addr.go: address types and addresses.
pub mod Binary
pub mod RoundTrip
pub mod Text
use tezos_index.Common.{ℕ, Bool, true, false, List, ◌==◌}

-- `AddressType`; the zero value is `invalid`.
pub data AddressType : Type 0 where
  invalid ed25519 secp256k1 p256 contract blinded : AddressType

-- `Address`: a type and the bytes of the hash.
pub record Address : Type 0 where
  pub type : AddressType
  pub hash : List ℕ

-- `typ == AddressTypeContract`
abbrev pub is_contract_type : AddressType → Bool
is_contract_type AddressType.contract = true
is_contract_type _ = false

abbrev pub type_index : AddressType → ℕ
type_index AddressType.invalid = 0
type_index AddressType.ed25519 = 1
type_index AddressType.secp256k1 = 2
type_index AddressType.p256 = 3
type_index AddressType.contract = 4
type_index AddressType.blinded = 5

-- `==` on address types
abbrev pub same_type : AddressType → AddressType → Bool
same_type a b = type_index a == type_index b
