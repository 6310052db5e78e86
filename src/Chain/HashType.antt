-- ===== src/Chain/HashType.antt =====
-- chain/hash.go: the types of hashes, their texts' prefixes and lengths, and the type of a text. A text
-- is the list of its bytes. The prefixes are constants of chain/magic.go.
pub mod Parse
use tezos_index.Common.{ℕ, Bool, true, false, ◌&&◌, List, [], ◌∷◌, ◌==◌, length, if◌then◌else◌}
use tezos_index.Chain.Magic.{
  chain_id_prefix, id_hash_prefix, ed25519_public_key_hash_prefix, secp256k1_public_key_hash_prefix,
  p256_public_key_hash_prefix, nocurve_public_key_hash_prefix, blinded_public_key_hash_prefix,
  block_hash_prefix, operation_hash_prefix, operation_list_hash_prefix,
  operation_list_list_hash_prefix, protocol_hash_prefix, context_hash_prefix, nonce_hash_prefix,
  ed25519_seed_prefix, ed25519_public_key_prefix, ed25519_secret_key_prefix,
  secp256k1_public_key_prefix, secp256k1_secret_key_prefix, p256_public_key_prefix,
  p256_secret_key_prefix, secp256k1_scalar_prefix, secp256k1_element_prefix,
  script_expr_hash_prefix, ed25519_encrypted_seed_prefix, secp256k1_encrypted_secret_key_prefix,
  p256_encrypted_secret_key_prefix, ed25519_signature_prefix, secp256k1_signature_prefix,
  p256_signature_prefix, generic_signature_prefix,
}

-- `HashType`
pub data HashType : Type 0 where
  invalid chain_id id pkh_ed25519 pkh_secp256k1 pkh_p256 pkh_nocurve pkh_blinded block : HashType
  operation operation_list operation_list_list protocol context nonce seed_ed25519 : HashType
  pk_ed25519 sk_ed25519 pk_secp256k1 sk_secp256k1 pk_p256 sk_p256 scalar_secp256k1 : HashType
  element_secp256k1 script_expr encrypted_seed_ed25519 encrypted_sk_secp256k1 : HashType
  encrypted_sk_p256 sig_ed25519 sig_secp256k1 sig_p256 sig_generic : HashType

-- `HashType.Prefix`
unfoldable pub prefix : HashType → List ℕ
prefix HashType.invalid = []
prefix HashType.chain_id = chain_id_prefix
prefix HashType.id = id_hash_prefix
prefix HashType.pkh_ed25519 = ed25519_public_key_hash_prefix
prefix HashType.pkh_secp256k1 = secp256k1_public_key_hash_prefix
prefix HashType.pkh_p256 = p256_public_key_hash_prefix
prefix HashType.pkh_nocurve = nocurve_public_key_hash_prefix
prefix HashType.pkh_blinded = blinded_public_key_hash_prefix
prefix HashType.block = block_hash_prefix
prefix HashType.operation = operation_hash_prefix
prefix HashType.operation_list = operation_list_hash_prefix
prefix HashType.operation_list_list = operation_list_list_hash_prefix
prefix HashType.protocol = protocol_hash_prefix
prefix HashType.context = context_hash_prefix
prefix HashType.nonce = nonce_hash_prefix
prefix HashType.seed_ed25519 = ed25519_seed_prefix
prefix HashType.pk_ed25519 = ed25519_public_key_prefix
prefix HashType.sk_ed25519 = ed25519_secret_key_prefix
prefix HashType.pk_secp256k1 = secp256k1_public_key_prefix
prefix HashType.sk_secp256k1 = secp256k1_secret_key_prefix
prefix HashType.pk_p256 = p256_public_key_prefix
prefix HashType.sk_p256 = p256_secret_key_prefix
prefix HashType.scalar_secp256k1 = secp256k1_scalar_prefix
prefix HashType.element_secp256k1 = secp256k1_element_prefix
prefix HashType.script_expr = script_expr_hash_prefix
prefix HashType.encrypted_seed_ed25519 = ed25519_encrypted_seed_prefix
prefix HashType.encrypted_sk_secp256k1 = secp256k1_encrypted_secret_key_prefix
prefix HashType.encrypted_sk_p256 = p256_encrypted_secret_key_prefix
prefix HashType.sig_ed25519 = ed25519_signature_prefix
prefix HashType.sig_secp256k1 = secp256k1_signature_prefix
prefix HashType.sig_p256 = p256_signature_prefix
prefix HashType.sig_generic = generic_signature_prefix

-- `HashType.Len`
unfoldable pub byte_len : HashType → ℕ
byte_len HashType.invalid = 0
byte_len HashType.chain_id = 4
byte_len HashType.id = 16
byte_len HashType.pkh_ed25519 = 20
byte_len HashType.pkh_secp256k1 = 20
byte_len HashType.pkh_p256 = 20
byte_len HashType.pkh_nocurve = 20
byte_len HashType.pkh_blinded = 20
byte_len HashType.block = 32
byte_len HashType.operation = 32
byte_len HashType.operation_list = 32
byte_len HashType.operation_list_list = 32
byte_len HashType.protocol = 32
byte_len HashType.context = 32
byte_len HashType.nonce = 32
byte_len HashType.seed_ed25519 = 32
byte_len HashType.pk_ed25519 = 32
byte_len HashType.sk_ed25519 = 64
byte_len HashType.pk_secp256k1 = 33
byte_len HashType.sk_secp256k1 = 32
byte_len HashType.pk_p256 = 33
byte_len HashType.sk_p256 = 32
byte_len HashType.scalar_secp256k1 = 33
byte_len HashType.element_secp256k1 = 33
byte_len HashType.script_expr = 32
byte_len HashType.encrypted_seed_ed25519 = 56
byte_len HashType.encrypted_sk_secp256k1 = 56
byte_len HashType.encrypted_sk_p256 = 56
byte_len HashType.sig_ed25519 = 64
byte_len HashType.sig_secp256k1 = 64
byte_len HashType.sig_p256 = 64
byte_len HashType.sig_generic = 64

-- `HashType.Base58Len`
unfoldable pub base58_len : HashType → ℕ
base58_len HashType.invalid = 0
base58_len HashType.chain_id = 15
base58_len HashType.id = 36
base58_len HashType.pkh_ed25519 = 36
base58_len HashType.pkh_secp256k1 = 36
base58_len HashType.pkh_p256 = 36
base58_len HashType.pkh_nocurve = 36
base58_len HashType.pkh_blinded = 37
base58_len HashType.block = 51
base58_len HashType.operation = 51
base58_len HashType.operation_list = 52
base58_len HashType.operation_list_list = 53
base58_len HashType.protocol = 51
base58_len HashType.context = 52
base58_len HashType.nonce = 53
base58_len HashType.seed_ed25519 = 54
base58_len HashType.pk_ed25519 = 54
base58_len HashType.sk_ed25519 = 98
base58_len HashType.pk_secp256k1 = 55
base58_len HashType.sk_secp256k1 = 54
base58_len HashType.pk_p256 = 55
base58_len HashType.sk_p256 = 54
base58_len HashType.scalar_secp256k1 = 53
base58_len HashType.element_secp256k1 = 54
base58_len HashType.script_expr = 54
base58_len HashType.encrypted_seed_ed25519 = 88
base58_len HashType.encrypted_sk_secp256k1 = 88
base58_len HashType.encrypted_sk_p256 = 88
base58_len HashType.sig_ed25519 = 99
base58_len HashType.sig_secp256k1 = 99
base58_len HashType.sig_p256 = 98
base58_len HashType.sig_generic = 96

-- `strings.HasPrefix`
unfoldable pub has_prefix : List ℕ → List ℕ → Bool
has_prefix s [] = true
has_prefix [] (c ∷ p) = false
has_prefix (b ∷ s) (c ∷ p) = b == c && has_prefix s p

-- The cases of one length, in their order, and the switch on the length.
abbrev pub Rows : Type 0
Rows = List (List ℕ × HashType)

abbrev pub length_table : List (ℕ × Rows)
length_table =
    (15, (chain_id_prefix, HashType.chain_id) ∷ [])
    ∷ (30, (id_hash_prefix, HashType.id) ∷ [])
    ∷ (
      36,
      (ed25519_public_key_hash_prefix, HashType.pkh_ed25519)
          ∷ (secp256k1_public_key_hash_prefix, HashType.pkh_secp256k1)
          ∷ (p256_public_key_hash_prefix, HashType.pkh_p256)
          ∷ (nocurve_public_key_hash_prefix, HashType.pkh_nocurve)
          ∷ (blinded_public_key_hash_prefix, HashType.pkh_blinded)
          ∷ [],
    )
    ∷ (
      51,
      (block_hash_prefix, HashType.block)
          ∷ (operation_hash_prefix, HashType.operation)
          ∷ (protocol_hash_prefix, HashType.protocol)
          ∷ [],
    )
    ∷ (
      52,
      (operation_list_hash_prefix, HashType.operation_list)
          ∷ (context_hash_prefix, HashType.context)
          ∷ [],
    )
    ∷ (
      53,
      (operation_list_list_hash_prefix, HashType.operation_list_list)
          ∷ (secp256k1_scalar_prefix, HashType.scalar_secp256k1)
          ∷ (nonce_hash_prefix, HashType.nonce)
          ∷ [],
    )
    ∷ (
      54,
      (ed25519_seed_prefix, HashType.seed_ed25519)
          ∷ (ed25519_public_key_prefix, HashType.pk_ed25519)
          ∷ (secp256k1_secret_key_prefix, HashType.sk_secp256k1)
          ∷ (p256_secret_key_prefix, HashType.sk_p256)
          ∷ (secp256k1_element_prefix, HashType.element_secp256k1)
          ∷ (script_expr_hash_prefix, HashType.script_expr)
          ∷ [],
    )
    ∷ (
      55,
      (secp256k1_public_key_prefix, HashType.pk_secp256k1)
          ∷ (p256_public_key_prefix, HashType.pk_p256)
          ∷ [],
    )
    ∷ (
      88,
      (ed25519_encrypted_seed_prefix, HashType.encrypted_seed_ed25519)
          ∷ (secp256k1_encrypted_secret_key_prefix, HashType.encrypted_sk_secp256k1)
          ∷ (p256_encrypted_secret_key_prefix, HashType.encrypted_sk_p256)
          ∷ [],
    )
    ∷ (96, (generic_signature_prefix, HashType.sig_generic) ∷ [])
    ∷ (
      98,
      (ed25519_secret_key_prefix, HashType.sk_ed25519)
          ∷ (p256_signature_prefix, HashType.sig_p256)
          ∷ [],
    )
    ∷ (
      99,
      (ed25519_signature_prefix, HashType.sig_ed25519)
          ∷ (secp256k1_signature_prefix, HashType.sig_secp256k1)
          ∷ [],
    )
    ∷ []

-- `switch true { case strings.HasPrefix(s, p): return t … }`
unfoldable pub first_match : Rows → List ℕ → HashType
unfolding has_prefix
first_match [] s = HashType.invalid
first_match ((p, t) ∷ rows) s = let rest = first_match rows s in if has_prefix s p then t else rest

-- `switch len(s) { case n: … }`
unfoldable pub rows_at : ℕ → List (ℕ × Rows) → Rows
rows_at n [] = []
rows_at n ((k, rows) ∷ more) = let rest = rows_at n more in if n == k then rows else rest

-- `ParseHashType`
unfoldable pub parse_hash_type : List ℕ → HashType
unfolding first_match rows_at
parse_hash_type s = first_match (rows_at (length s) length_table) s
