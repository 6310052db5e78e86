-- ===== src/Chain/Magic.antt =====
-- chain/magic.go: the prefixes of the texts of hashes, keys and signatures.
use tezos_index.Common.{ℕ, List, [], ◌∷◌}

abbrev pub chain_id_prefix : List ℕ
chain_id_prefix = b'N' ∷ b'e' ∷ b't' ∷ []

abbrev pub id_hash_prefix : List ℕ
id_hash_prefix = b'i' ∷ b'd' ∷ []

abbrev pub ed25519_public_key_hash_prefix : List ℕ
ed25519_public_key_hash_prefix = b't' ∷ b'z' ∷ b'1' ∷ []

abbrev pub secp256k1_public_key_hash_prefix : List ℕ
secp256k1_public_key_hash_prefix = b't' ∷ b'z' ∷ b'2' ∷ []

abbrev pub p256_public_key_hash_prefix : List ℕ
p256_public_key_hash_prefix = b't' ∷ b'z' ∷ b'3' ∷ []

abbrev pub nocurve_public_key_hash_prefix : List ℕ
nocurve_public_key_hash_prefix = b'K' ∷ b'T' ∷ b'1' ∷ []

abbrev pub blinded_public_key_hash_prefix : List ℕ
blinded_public_key_hash_prefix = b'b' ∷ b't' ∷ b'z' ∷ b'1' ∷ []

abbrev pub block_hash_prefix : List ℕ
block_hash_prefix = b'B' ∷ []

abbrev pub operation_hash_prefix : List ℕ
operation_hash_prefix = b'o' ∷ []

abbrev pub operation_list_hash_prefix : List ℕ
operation_list_hash_prefix = b'L' ∷ b'o' ∷ []

abbrev pub operation_list_list_hash_prefix : List ℕ
operation_list_list_hash_prefix = b'L' ∷ b'L' ∷ b'o' ∷ []

abbrev pub protocol_hash_prefix : List ℕ
protocol_hash_prefix = b'P' ∷ []

abbrev pub context_hash_prefix : List ℕ
context_hash_prefix = b'C' ∷ b'o' ∷ []

abbrev pub nonce_hash_prefix : List ℕ
nonce_hash_prefix = b'n' ∷ b'c' ∷ b'e' ∷ []

abbrev pub ed25519_seed_prefix : List ℕ
ed25519_seed_prefix = b'e' ∷ b'd' ∷ b's' ∷ b'k' ∷ []

abbrev pub ed25519_public_key_prefix : List ℕ
ed25519_public_key_prefix = b'e' ∷ b'd' ∷ b'p' ∷ b'k' ∷ []

abbrev pub ed25519_secret_key_prefix : List ℕ
ed25519_secret_key_prefix = b'e' ∷ b'd' ∷ b's' ∷ b'k' ∷ []

abbrev pub secp256k1_public_key_prefix : List ℕ
secp256k1_public_key_prefix = b's' ∷ b'p' ∷ b'p' ∷ b'k' ∷ []

abbrev pub secp256k1_secret_key_prefix : List ℕ
secp256k1_secret_key_prefix = b's' ∷ b'p' ∷ b's' ∷ b'k' ∷ []

abbrev pub p256_public_key_prefix : List ℕ
p256_public_key_prefix = b'p' ∷ b'2' ∷ b'p' ∷ b'k' ∷ []

abbrev pub p256_secret_key_prefix : List ℕ
p256_secret_key_prefix = b'p' ∷ b'2' ∷ b's' ∷ b'k' ∷ []

abbrev pub secp256k1_scalar_prefix : List ℕ
secp256k1_scalar_prefix = b'S' ∷ b'S' ∷ b'p' ∷ []

abbrev pub secp256k1_element_prefix : List ℕ
secp256k1_element_prefix = b'G' ∷ b'S' ∷ b'p' ∷ []

abbrev pub script_expr_hash_prefix : List ℕ
script_expr_hash_prefix = b'e' ∷ b'x' ∷ b'p' ∷ b'r' ∷ []

abbrev pub ed25519_encrypted_seed_prefix : List ℕ
ed25519_encrypted_seed_prefix = b'e' ∷ b'd' ∷ b'e' ∷ b's' ∷ b'k' ∷ []

abbrev pub secp256k1_encrypted_secret_key_prefix : List ℕ
secp256k1_encrypted_secret_key_prefix = b's' ∷ b'p' ∷ b'e' ∷ b's' ∷ b'k' ∷ []

abbrev pub p256_encrypted_secret_key_prefix : List ℕ
p256_encrypted_secret_key_prefix = b'p' ∷ b'2' ∷ b'e' ∷ b's' ∷ b'k' ∷ []

abbrev pub ed25519_signature_prefix : List ℕ
ed25519_signature_prefix = b'e' ∷ b'd' ∷ b's' ∷ b'i' ∷ b'g' ∷ []

abbrev pub secp256k1_signature_prefix : List ℕ
secp256k1_signature_prefix = b's' ∷ b'p' ∷ b's' ∷ b'i' ∷ b'g' ∷ b'1' ∷ []

abbrev pub p256_signature_prefix : List ℕ
p256_signature_prefix = b'p' ∷ b'2' ∷ b's' ∷ b'i' ∷ b'g' ∷ []

abbrev pub generic_signature_prefix : List ℕ
generic_signature_prefix = b's' ∷ b'i' ∷ b'g' ∷ []
