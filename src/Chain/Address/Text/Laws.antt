-- ===== src/Chain/Address/Text/Laws.antt =====
-- chain/addr.go: the texts of address types and of addresses, read back.
use tezos_index.Common.{ℕ, ◌≡◌, ◌≢◌, refl, arith, true, List, [], some, ◌==◌, length, subst}
use tezos_index.Chain.Magic.{blinded_public_key_hash_prefix}
use tezos_index.Chain.HashType.{prefix, has_prefix}
use tezos_index.Chain.HashType.Parse.{clash, has_prefix-clash}
use tezos_index.Chain.Address.{AddressType, Address}
use tezos_index.Chain.Address.Binary.{hash_type}
use tezos_index.Chain.Address.Text.{
  Decoded, Parsed, parse_address_type, address_type_string, address_type_prefix, read_decoded,
  type_of_version, blinded_version, decode_blinded_address, parse_address, encode_type,
  encode_address, ed25519_public_key_hash_id, secp256k1_public_key_hash_id, p256_public_key_hash_id,
  nocurve_public_key_hash_id, blinded_public_key_hash_id,
}

-- The name of an address type and its prefix are both read as that type.
pub parse_address_type-address_type_string :
    (t : AddressType)
    → (parse_address_type (address_type_string t) ≡ t)
      × (parse_address_type (address_type_prefix t) ≡ t)
unfolding parse_address_type address_type_string address_type_prefix
parse_address_type-address_type_string AddressType.invalid = (refl, refl)
parse_address_type-address_type_string AddressType.ed25519 = (refl, refl)
parse_address_type-address_type_string AddressType.secp256k1 = (refl, refl)
parse_address_type-address_type_string AddressType.p256 = (refl, refl)
parse_address_type-address_type_string AddressType.contract = (refl, refl)
parse_address_type-address_type_string AddressType.blinded = (refl, refl)

-- The version bytes of a type.
unfoldable pub version : AddressType → List ℕ
version AddressType.ed25519 = ed25519_public_key_hash_id
version AddressType.secp256k1 = secp256k1_public_key_hash_id
version AddressType.p256 = p256_public_key_hash_id
version AddressType.contract = nocurve_public_key_hash_id
version AddressType.blinded = blinded_public_key_hash_id
version AddressType.invalid = []

-- What the base58 code promises of a hash of 20 bytes under the version of a type: the text is read
-- back with a version of that length, and it starts with the prefix of the type.
pub record IsBase58 (check_encode : List ℕ → List ℕ → List ℕ) (check_decode : List ℕ → ℕ → Decoded)
    : Type 0 where
  pub decodes :
      (t : AddressType) (h : List ℕ)
      → length h ≡ 20
      → check_decode (check_encode h (version t)) (length (version t)) ≡ Decoded.ok h (version t)
  pub starts :
      (t : AddressType) (h : List ℕ)
      → length h ≡ 20
      → has_prefix (check_encode h (version t)) (prefix (hash_type t)) ≡ true

module _ (check_encode : List ℕ → List ℕ → List ℕ) (check_decode : List ℕ → ℕ → Decoded)
    (base58 : IsBase58 check_encode check_decode) where
  -- A text that starts with another prefix goes the way of `ParseAddress` that is not the blinded one.
  parse_plain :
      (t : AddressType) (h : List ℕ)
      → clash (prefix (hash_type t)) blinded_public_key_hash_prefix ≡ true
      → length (version t) ≡ 3
      → type_of_version (version t) ≡ some t
      → length h ≡ 20
      → parse_address check_decode (check_encode h (version t))
        ≡ Parsed.ok (record { type = t; hash = h })
  unfolding parse_address read_decoded
  parse_plain t h other three found e =
      let plain =
        has_prefix-clash (prefix (hash_type t)) blinded_public_key_hash_prefix
          (check_encode h (version t)) other (base58.starts t h e) in
      let decoded =
        subst (λ n. check_decode (check_encode h (version t)) n ≡ Decoded.ok h (version t)) three
          (base58.decodes t h e) in
      let full : (length h == 20) ≡ true = ground arith in rw (plain, decoded, full, found) refl

  parse_blinded :
      (h : List ℕ)
      → length h ≡ 20
      → parse_address check_decode (check_encode h blinded_public_key_hash_id)
        ≡ Parsed.ok (record { type = AddressType.blinded; hash = h })
  unfolding parse_address decode_blinded_address read_decoded blinded_version version prefix
      hash_type
  parse_blinded h e =
      let full : (length h == 20) ≡ true = ground arith in
      rw (base58.starts AddressType.blinded h e, base58.decodes AddressType.blinded h e, full) refl

  back :
      (t : AddressType) (h : List ℕ)
      → t ≢ AddressType.invalid
      → length h ≡ 20
      → (s : List ℕ) × (encode_type check_encode t h ≡ some s)
        × (parse_address check_decode s ≡ Parsed.ok (record { type = t; hash = h }))
  unfolding encode_type version prefix hash_type clash type_of_version
  back AddressType.invalid h n e = absurd (n refl)
  back AddressType.ed25519 h n e = (_, refl, parse_plain AddressType.ed25519 h refl refl refl e)
  back AddressType.secp256k1 h n e = (_, refl, parse_plain AddressType.secp256k1 h refl refl refl e)
  back AddressType.p256 h n e = (_, refl, parse_plain AddressType.p256 h refl refl refl e)
  back AddressType.contract h n e = (_, refl, parse_plain AddressType.contract h refl refl refl e)
  back AddressType.blinded h n e = (_, refl, parse_blinded h e)

  -- A valid address is read back from its text: `EncodeAddress` gives a text, and `ParseAddress` of it
  -- the address. The conditions are what base58 promises, a known type and a hash of 20 bytes.
  pub parse_address-encode_address :
      (a : Address)
      → a.type ≢ AddressType.invalid
      → length a.hash ≡ 20
      → (s : List ℕ) × (encode_address check_encode a.type a.hash ≡ some s)
        × (parse_address check_decode s ≡ Parsed.ok a)
  unfolding encode_address
  parse_address-encode_address a n e =
      let (s, made, read) = back a.type a.hash n e in
      let full : (length a.hash == 20) ≡ true = ground arith in (s, rw full made, read)
