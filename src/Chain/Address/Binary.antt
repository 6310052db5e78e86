-- ===== src/Chain/Address/Binary.antt =====
-- chain/addr.go: the binary forms of an address, of 21 and of 22 bytes.
use tezos_index.Common.{
  ℕ, Bool, true, false, ◌&&◌, ◌||◌, List, [], ◌∷◌, ◌++◌, Option, none, some, ◌==◌, leb,
  if◌then◌else◌, length, take,
}
use tezos_index.Chain.Address.{AddressType, Address}
use tezos_index.Chain.HashType.{HashType, byte_len}

-- `AddressType.IsValid`
unfoldable pub is_valid_type : AddressType → Bool
is_valid_type AddressType.invalid = false
is_valid_type t = true

-- `AddressType.Tag`
unfoldable pub tag : AddressType → ℕ
tag AddressType.ed25519 = 0
tag AddressType.secp256k1 = 1
tag AddressType.p256 = 2
tag _ = 255

-- `ParseAddressTag`
unfoldable pub parse_address_tag : ℕ → AddressType
parse_address_tag b =
    if b == 0
    then AddressType.ed25519
    else if b == 1
    then AddressType.secp256k1
    else if b == 2
    then AddressType.p256
    else AddressType.invalid

-- `AddressType.HashType`
unfoldable pub hash_type : AddressType → HashType
hash_type AddressType.ed25519 = HashType.pkh_ed25519
hash_type AddressType.secp256k1 = HashType.pkh_secp256k1
hash_type AddressType.p256 = HashType.pkh_p256
hash_type AddressType.contract = HashType.pkh_nocurve
hash_type AddressType.blinded = HashType.pkh_blinded
hash_type AddressType.invalid = HashType.invalid

-- `Address.IsValid`
unfoldable pub is_valid : Address → Bool
unfolding is_valid_type hash_type byte_len
is_valid a = is_valid_type a.type && length a.hash == byte_len (hash_type a.type)

-- `Address.Bytes`; `nil` is the empty list.
unfoldable pub to_bytes : Address → List ℕ
unfolding tag
to_bytes a = elim a.type [
  | AddressType.invalid ↦ []
  | AddressType.contract ↦ 1 ∷ (a.hash ++ (0 ∷ []))
  | t ↦ tag t ∷ a.hash
]

-- `Address.MarshalBinary`; `none` is `ErrUnknownAddressType`.
unfoldable pub marshal_binary : Address → Option (List ℕ)
unfolding tag
marshal_binary a = elim a.type [
  | AddressType.invalid ↦ none
  | AddressType.contract ↦ some (1 ∷ (a.hash ++ (0 ∷ [])))
  | t ↦ some (0 ∷ tag t ∷ a.hash)
]

pub data AddressError : Type 0 where
  bad_length unknown_type : AddressError

-- What follows the switch: the type is set whether it is known or not.
unfoldable pub set_address : Address → AddressType → List ℕ → Address × Option AddressError
unfolding is_valid_type
set_address a type hash =
    if is_valid_type type
    then (record { type = type; hash = hash }, none)
    else (record a { type = type }, some AddressError.unknown_type)

-- `Address.UnmarshalBinary`: the address, also beside an error.
unfoldable pub unmarshal_binary : Address → List ℕ → Address × Option AddressError
unfolding parse_address_tag set_address
unmarshal_binary a (b ∷ c ∷ rest) =
    if leb 20 (length rest) && (b == 0 || b == 1)
    then if b == 0
      then set_address a (parse_address_tag c) (take 20 rest)
      else set_address a AddressType.contract (take 20 (c ∷ rest))
    else if leb 19 (length rest)
    then set_address a (parse_address_tag b) (take 20 (c ∷ rest))
    else (a, some AddressError.bad_length)
unmarshal_binary a _ = (a, some AddressError.bad_length)
