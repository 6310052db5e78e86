-- ===== src/Chain/Address/Text.antt =====
-- chain/addr.go and chain/blinded.go: the texts of address types, and an address as a text. The base58
-- code with its SHA-256 checksum is a parameter.
pub mod Laws
use Prim.Native.String.{String}
use tezos_index.Common.Texts.{read_table}
use tezos_index.Common.{
  ℕ, Bool, true, ◌||◌, List, [], ◌∷◌, ◌==◌, length, Option, none, some, if◌then◌else◌,
}
use tezos_index.Common.{same_bytes}
use tezos_index.Chain.Magic.{
  ed25519_public_key_hash_prefix, secp256k1_public_key_hash_prefix, p256_public_key_hash_prefix,
  nocurve_public_key_hash_prefix, blinded_public_key_hash_prefix,
}
use tezos_index.Chain.HashType.{has_prefix}
use tezos_index.Chain.Address.{AddressType, Address}

abbrev pub address_type_table : List (String × AddressType)
address_type_table =
    ("ed25519", AddressType.ed25519)
    ∷ ("tz1", AddressType.ed25519)
    ∷ ("secp256k1", AddressType.secp256k1)
    ∷ ("tz2", AddressType.secp256k1)
    ∷ ("p256", AddressType.p256)
    ∷ ("tz3", AddressType.p256)
    ∷ ("contract", AddressType.contract)
    ∷ ("KT1", AddressType.contract)
    ∷ ("blinded", AddressType.blinded)
    ∷ ("btz1", AddressType.blinded)
    ∷ []

-- `ParseAddressType`
unfoldable pub parse_address_type : String → AddressType
parse_address_type = read_table address_type_table AddressType.invalid

-- `AddressType.String`
unfoldable pub address_type_string : AddressType → String
address_type_string AddressType.ed25519 = "ed25519"
address_type_string AddressType.secp256k1 = "secp256k1"
address_type_string AddressType.p256 = "p256"
address_type_string AddressType.contract = "contract"
address_type_string AddressType.blinded = "blinded"
address_type_string AddressType.invalid = "invalid"

-- `AddressType.Prefix`
unfoldable pub address_type_prefix : AddressType → String
address_type_prefix AddressType.ed25519 = "tz1"
address_type_prefix AddressType.secp256k1 = "tz2"
address_type_prefix AddressType.p256 = "tz3"
address_type_prefix AddressType.contract = "KT1"
address_type_prefix AddressType.blinded = "btz1"
address_type_prefix AddressType.invalid = ""

-- `HasAddressPrefix`
unfoldable pub has_address_prefix : List ℕ → Bool
unfolding has_prefix
has_address_prefix s =
    has_prefix s ed25519_public_key_hash_prefix
    || has_prefix s secp256k1_public_key_hash_prefix
    || has_prefix s p256_public_key_hash_prefix
    || has_prefix s nocurve_public_key_hash_prefix
    || has_prefix s blinded_public_key_hash_prefix

-- The version bytes of chain/magic.go.
abbrev pub ed25519_public_key_hash_id : List ℕ
ed25519_public_key_hash_id = 0x06 ∷ 0xa1 ∷ 0x9f ∷ []

abbrev pub secp256k1_public_key_hash_id : List ℕ
secp256k1_public_key_hash_id = 0x06 ∷ 0xa1 ∷ 0xa1 ∷ []

abbrev pub p256_public_key_hash_id : List ℕ
p256_public_key_hash_id = 0x06 ∷ 0xa1 ∷ 0xa4 ∷ []

abbrev pub nocurve_public_key_hash_id : List ℕ
nocurve_public_key_hash_id = 0x02 ∷ 0x5a ∷ 0x79 ∷ []

abbrev pub blinded_public_key_hash_id : List ℕ
blinded_public_key_hash_id = 0x01 ∷ 0x02 ∷ 0x31 ∷ 0xdf ∷ []

-- What `base58.CheckDecode` gives: the payload and the version, or an error.
pub data Decoded : Type 0 where
  ok : List ℕ → List ℕ → Decoded
  bad_checksum bad_format : Decoded

pub data Parsed : Type 0 where
  ok : Address → Parsed
  checksum_mismatch bad_format bad_length unknown_type : Parsed

-- What is common to `ParseAddress` and `DecodeBlindedAddress`: the errors, then the length, then the
-- type of the version.
unfoldable pub read_decoded : (List ℕ → Option AddressType) → Decoded → Parsed
read_decoded types (Decoded.ok payload version) =
    if length payload == 20
    then elim (types version) [
      | none ↦ Parsed.unknown_type
      | some t ↦ Parsed.ok (record { type = t; hash = payload })
    ]
    else Parsed.bad_length
read_decoded types Decoded.bad_checksum = Parsed.checksum_mismatch
read_decoded types Decoded.bad_format = Parsed.bad_format

-- The switch on the version in `ParseAddress`.
unfoldable pub type_of_version : List ℕ → Option AddressType
type_of_version v =
    if same_bytes v ed25519_public_key_hash_id
    then some AddressType.ed25519
    else if same_bytes v secp256k1_public_key_hash_id
    then some AddressType.secp256k1
    else if same_bytes v p256_public_key_hash_id
    then some AddressType.p256
    else if same_bytes v nocurve_public_key_hash_id
    then some AddressType.contract
    else none

-- The same in `DecodeBlindedAddress`.
unfoldable pub blinded_version : List ℕ → Option AddressType
blinded_version v =
    if same_bytes v blinded_public_key_hash_id then some AddressType.blinded else none

module _ (check_decode : List ℕ → ℕ → Decoded) where
  -- `DecodeBlindedAddress`
  unfoldable pub decode_blinded_address : List ℕ → Parsed
  unfolding read_decoded blinded_version
  decode_blinded_address s = read_decoded blinded_version (check_decode s 4)

  -- `ParseAddress`
  unfoldable pub parse_address : List ℕ → Parsed
  unfolding decode_blinded_address has_prefix read_decoded type_of_version
  parse_address s =
      if has_prefix s blinded_public_key_hash_prefix
      then decode_blinded_address s
      else read_decoded type_of_version (check_decode s 3)

module _ (check_encode : List ℕ → List ℕ → List ℕ) where
  -- The switch on the type in `EncodeAddress`.
  unfoldable pub encode_type : AddressType → List ℕ → Option (List ℕ)
  encode_type AddressType.ed25519 h = some (check_encode h ed25519_public_key_hash_id)
  encode_type AddressType.secp256k1 h = some (check_encode h secp256k1_public_key_hash_id)
  encode_type AddressType.p256 h = some (check_encode h p256_public_key_hash_id)
  encode_type AddressType.contract h = some (check_encode h nocurve_public_key_hash_id)
  encode_type AddressType.blinded h = some (check_encode h blinded_public_key_hash_id)
  encode_type AddressType.invalid h = none

  -- `EncodeAddress`; `none` is its error.
  unfoldable pub encode_address : AddressType → List ℕ → Option (List ℕ)
  unfolding encode_type
  encode_address t h = if length h == 20 then encode_type t h else none
