-- ===== src/AddressTests.antt =====
-- Runs of the forms of addresses and hashes at concrete inputs.
use tezos_index.Common.{
  ℕ, ◌+◌, ◌≡◌, ◌≢◌, ◌↔◌, refl, true, List, [], ◌∷◌, ◌++◌, none, some, length, take, drop,
  same_bytes, if◌then◌else◌,
}
use tezos_index.Chain.Magic.{
  ed25519_public_key_hash_prefix, secp256k1_public_key_hash_prefix, p256_public_key_hash_prefix,
  nocurve_public_key_hash_prefix, blinded_public_key_hash_prefix,
}
use tezos_index.Chain.HashType.{HashType, prefix, base58_len, has_prefix, parse_hash_type}
use tezos_index.Chain.HashType.Parse.{
  IsRegular, IsIrregular, parse_hash_type_iff, parse_hash_type_irregular,
}
use tezos_index.Chain.Address.{AddressType, Address}
use tezos_index.Chain.Address.Binary.{marshal_binary, unmarshal_binary, to_bytes, hash_type, tag}
use tezos_index.Chain.Address.RoundTrip.{HasForm, unmarshal_binary-marshal_binary}
use tezos_index.Chain.Address.Text.{
  Decoded, Parsed, parse_address, encode_address, ed25519_public_key_hash_id,
  secp256k1_public_key_hash_id, p256_public_key_hash_id, nocurve_public_key_hash_id,
  blinded_public_key_hash_id,
}
use tezos_index.Chain.Address.Text.Laws.{version, parse_address-encode_address}

abbrev twenty : List ℕ
twenty =
    1 ∷ 2 ∷ 3 ∷ 4 ∷ 5 ∷ 6 ∷ 7 ∷ 8 ∷ 9 ∷ 10 ∷ 11 ∷ 12 ∷ 13 ∷ 14 ∷ 15 ∷ 16 ∷ 17 ∷ 18 ∷ 19 ∷ 20 ∷ []

abbrev wallet : Address
wallet = record { type = AddressType.secp256k1; hash = twenty }

abbrev nowhere : Address
nowhere = record { type = AddressType.invalid; hash = [] }

-- A text of 15 bytes that starts as a chain id.
abbrev chain_text : List ℕ
chain_text =
    b'N' ∷ b'e' ∷ b't' ∷ b'X' ∷ b'd' ∷ b'Q' ∷ b'p' ∷ b'r' ∷ b'c' ∷ b'V' ∷ b'k' ∷ b'p' ∷ b'a' ∷ b'W'
    ∷ b'U' ∷ []

parse_hash_type_iff_example : (parse_hash_type chain_text ≡ HashType.chain_id) ↔ (
    (length chain_text ≡ base58_len HashType.chain_id)
    × (has_prefix chain_text (prefix HashType.chain_id) ≡ true))
parse_hash_type_iff_example = parse_hash_type_iff chain_text HashType.chain_id IsRegular.chain_id

-- A text of 37 bytes that starts as a blinded address.
abbrev blinded_text : List ℕ
blinded_text = b'b' ∷ b't' ∷ b'z' ∷ b'1' ∷ (twenty ++ take 13 twenty)

parse_hash_type_irregular_example : parse_hash_type blinded_text ≢ HashType.pkh_blinded
unfolding base58_len
parse_hash_type_irregular_example =
    parse_hash_type_irregular blinded_text HashType.pkh_blinded IsIrregular.pkh_blinded refl

unmarshal_binary-marshal_binary_example :
    (unmarshal_binary nowhere ((0 ∷ 1 ∷ twenty) ++ (9 ∷ [])) ≡ (wallet, none))
    × (unmarshal_binary nowhere (to_bytes wallet) ≡ (wallet, none))
unfolding marshal_binary tag
unmarshal_binary-marshal_binary_example =
    unmarshal_binary-marshal_binary nowhere wallet (0 ∷ 1 ∷ twenty) (9 ∷ []) HasForm.secp256k1 refl
      refl

-- A code that writes the prefix of the version, the version and the payload as they are.
abbrev plain_prefix : List ℕ → List ℕ
plain_prefix v =
    if same_bytes v ed25519_public_key_hash_id
    then ed25519_public_key_hash_prefix
    else if same_bytes v secp256k1_public_key_hash_id
    then secp256k1_public_key_hash_prefix
    else if same_bytes v p256_public_key_hash_id
    then p256_public_key_hash_prefix
    else if same_bytes v nocurve_public_key_hash_id
    then nocurve_public_key_hash_prefix
    else if same_bytes v blinded_public_key_hash_id
    then blinded_public_key_hash_prefix
    else []

abbrev plain_encode : List ℕ → List ℕ → List ℕ
plain_encode h v = plain_prefix v ++ (v ++ h)

abbrev plain_decode : List ℕ → ℕ → Decoded
plain_decode s n = Decoded.ok (drop (n + n) s) (take n (drop n s))

plain_decodes :
    (t : AddressType) (h : List ℕ)
    → length h ≡ 20
    → plain_decode (plain_encode h (version t)) (length (version t)) ≡ Decoded.ok h (version t)
unfolding version
plain_decodes AddressType.ed25519 h e = refl
plain_decodes AddressType.secp256k1 h e = refl
plain_decodes AddressType.p256 h e = refl
plain_decodes AddressType.contract h e = refl
plain_decodes AddressType.blinded h e = refl
plain_decodes AddressType.invalid h e = refl

plain_starts :
    (t : AddressType) (h : List ℕ)
    → length h ≡ 20
    → has_prefix (plain_encode h (version t)) (prefix (hash_type t)) ≡ true
unfolding version has_prefix prefix hash_type
plain_starts AddressType.ed25519 h e = refl
plain_starts AddressType.secp256k1 h e = refl
plain_starts AddressType.p256 h e = refl
plain_starts AddressType.contract h e = refl
plain_starts AddressType.blinded h e = refl
plain_starts AddressType.invalid h e = refl

parse_address-encode_address_example :
    (s : List ℕ) × (encode_address plain_encode AddressType.secp256k1 twenty ≡ some s)
    × (parse_address plain_decode s ≡ Parsed.ok wallet)
parse_address-encode_address_example =
    parse_address-encode_address plain_encode plain_decode
      (record { decodes = plain_decodes; starts = plain_starts }) wallet (λ e. cc) refl
