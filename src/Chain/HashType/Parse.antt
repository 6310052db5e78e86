-- ===== src/Chain/HashType/Parse.antt =====
-- chain/hash.go: what `ParseHashType` reads, beside the prefixes and the lengths of the types.
use tezos_index.Common.{
  ℕ, ◌≡◌, ◌≢◌, ◌↔◌, ◌<◌, subst, refl, sym, ap, ◌∙◌, arith, Bool, true, false, ◌||◌, not, List, [],
  ◌∷◌, Option, none, some, ◌==◌, length, if◌then◌else◌, Bool-cases, inl, inr,
}
use tezos_index.Chain.HashType.{
  HashType, Rows, prefix, base58_len, has_prefix, length_table, first_match, rows_at,
  parse_hash_type,
}

-- The types whose length of a text is the one that `ParseHashType` expects.
pub data IsRegular : HashType → Type 0 where
  chain_id : IsRegular HashType.chain_id
  pkh_ed25519 : IsRegular HashType.pkh_ed25519
  pkh_secp256k1 : IsRegular HashType.pkh_secp256k1
  pkh_p256 : IsRegular HashType.pkh_p256
  pkh_nocurve : IsRegular HashType.pkh_nocurve
  block : IsRegular HashType.block
  operation : IsRegular HashType.operation
  operation_list : IsRegular HashType.operation_list
  operation_list_list : IsRegular HashType.operation_list_list
  protocol : IsRegular HashType.protocol
  context : IsRegular HashType.context
  nonce : IsRegular HashType.nonce
  seed_ed25519 : IsRegular HashType.seed_ed25519
  pk_ed25519 : IsRegular HashType.pk_ed25519
  sk_ed25519 : IsRegular HashType.sk_ed25519
  pk_secp256k1 : IsRegular HashType.pk_secp256k1
  sk_secp256k1 : IsRegular HashType.sk_secp256k1
  pk_p256 : IsRegular HashType.pk_p256
  sk_p256 : IsRegular HashType.sk_p256
  scalar_secp256k1 : IsRegular HashType.scalar_secp256k1
  element_secp256k1 : IsRegular HashType.element_secp256k1
  script_expr : IsRegular HashType.script_expr
  encrypted_seed_ed25519 : IsRegular HashType.encrypted_seed_ed25519
  encrypted_sk_secp256k1 : IsRegular HashType.encrypted_sk_secp256k1
  encrypted_sk_p256 : IsRegular HashType.encrypted_sk_p256
  sig_ed25519 : IsRegular HashType.sig_ed25519
  sig_secp256k1 : IsRegular HashType.sig_secp256k1
  sig_p256 : IsRegular HashType.sig_p256
  sig_generic : IsRegular HashType.sig_generic

-- Those where it expects another.
pub data IsIrregular : HashType → Type 0 where
  id : IsIrregular HashType.id
  pkh_blinded : IsIrregular HashType.pkh_blinded

-- The length at which `ParseHashType` tries the prefix of a type.
text_len : HashType → ℕ
text_len HashType.id = 30
text_len HashType.pkh_blinded = 36
text_len t = base58_len t

-- Two texts that are prefixes of no common text.
unfoldable pub clash : List ℕ → List ℕ → Bool
clash [] q = false
clash (b ∷ p) [] = false
clash (b ∷ p) (c ∷ q) = not (b == c) || clash p q

pub has_prefix-clash :
    (p q s : List ℕ) → clash p q ≡ true → has_prefix s p ≡ true → has_prefix s q ≡ false
unfolding clash has_prefix
has_prefix-clash [] q s h k = cc
has_prefix-clash (b ∷ p) [] s h k = cc
has_prefix-clash (b ∷ p) (c ∷ q) [] h k = refl
has_prefix-clash (b ∷ p) (c ∷ q) (x ∷ s) h k = ground (arith, has_prefix-clash p q s)

has_prefix_trans :
    (s p q : List ℕ) → has_prefix s p ≡ true → has_prefix p q ≡ true → has_prefix s q ≡ true
unfolding has_prefix
has_prefix_trans s p [] h k = refl
has_prefix_trans s [] (c ∷ q) h k = cc
has_prefix_trans [] (b ∷ p) (c ∷ q) h k = cc
has_prefix_trans (x ∷ s) (b ∷ p) (c ∷ q) h k = ground (arith, has_prefix_trans s p q)

-- The type that the rows give to the texts with a prefix, where the prefix alone decides that.
row_of : List ℕ → Rows → Option HashType
unfolding clash has_prefix
row_of p [] = none
row_of p ((q, t) ∷ rows) =
    let rest = row_of p rows in if has_prefix p q then some t else if clash p q then rest else none

first_match-row_of :
    (p s : List ℕ) (rows : Rows) (t : HashType)
    → row_of p rows ≡ some t
    → has_prefix s p ≡ true
    → first_match rows s ≡ t
unfolding row_of first_match
first_match-row_of p s [] t e h = cc
first_match-row_of p s ((q, u) ∷ rows) t e h =
    ground (arith, has_prefix_trans s p q, has_prefix-clash p q s, first_match-row_of p s rows t)

decided :
    (t : HashType) → IsRegular t → row_of (prefix t) (rows_at (base58_len t) length_table) ≡ some t
unfolding row_of clash has_prefix prefix base58_len rows_at
decided _ IsRegular.chain_id = refl
decided _ IsRegular.pkh_ed25519 = refl
decided _ IsRegular.pkh_secp256k1 = refl
decided _ IsRegular.pkh_p256 = refl
decided _ IsRegular.pkh_nocurve = refl
decided _ IsRegular.block = refl
decided _ IsRegular.operation = refl
decided _ IsRegular.operation_list = refl
decided _ IsRegular.operation_list_list = refl
decided _ IsRegular.protocol = refl
decided _ IsRegular.context = refl
decided _ IsRegular.nonce = refl
decided _ IsRegular.seed_ed25519 = refl
decided _ IsRegular.pk_ed25519 = refl
decided _ IsRegular.sk_ed25519 = refl
decided _ IsRegular.pk_secp256k1 = refl
decided _ IsRegular.sk_secp256k1 = refl
decided _ IsRegular.pk_p256 = refl
decided _ IsRegular.sk_p256 = refl
decided _ IsRegular.scalar_secp256k1 = refl
decided _ IsRegular.element_secp256k1 = refl
decided _ IsRegular.script_expr = refl
decided _ IsRegular.encrypted_seed_ed25519 = refl
decided _ IsRegular.encrypted_sk_secp256k1 = refl
decided _ IsRegular.encrypted_sk_p256 = refl
decided _ IsRegular.sig_ed25519 = refl
decided _ IsRegular.sig_secp256k1 = refl
decided _ IsRegular.sig_p256 = refl
decided _ IsRegular.sig_generic = refl

-- What the rows of one length may have: the prefix of their type, at its length.
Fit : ℕ → Rows → Type 0
unfolding text_len prefix
Fit n [] = Unit {0}
Fit n ((p, t) ∷ rows) = (prefix t ≡ p) × (text_len t ≡ n) × Fit n rows

AllFit : List (ℕ × Rows) → Type 0
unfolding Fit
AllFit [] = Unit {0}
AllFit ((n, rows) ∷ more) = Fit n rows × AllFit more

rows_at-Fit : (n : ℕ) (table : List (ℕ × Rows)) → AllFit table → Fit n (rows_at n table)
unfolding Fit AllFit rows_at
rows_at-Fit n [] h = tt
rows_at-Fit n ((k, rows) ∷ more) h = elim (Bool-cases (n == k)) [
  | inl e ↦ let same : n ≡ k = ground arith in rw e (subst (λ x. Fit x rows) (sym same) h.0)
  | inr e ↦ rw e (rows_at-Fit n more h.1)
]

first_match-Fit :
    (n : ℕ) (rows : Rows) (s : List ℕ)
    → Fit n rows
    → first_match rows s ≢ HashType.invalid
    → (has_prefix s (prefix (first_match rows s)) ≡ true) × (text_len (first_match rows s) ≡ n)
unfolding Fit first_match
first_match-Fit n [] s h k = absurd (k refl)
first_match-Fit n ((p, t) ∷ rows) s h k = elim (Bool-cases (has_prefix s p)) [
  | inl e ↦ rw e (rw h.0 e, h.1)
  | inr e ↦ rw e (first_match-Fit n rows s h.2 (λ z. k (rw e z)))
]

length_table-AllFit : AllFit length_table
unfolding AllFit Fit text_len prefix base58_len
length_table-AllFit = ground arith

parse_hash_type-Fit :
    (s : List ℕ)
    → parse_hash_type s ≢ HashType.invalid
    → (has_prefix s (prefix (parse_hash_type s)) ≡ true) × (text_len (parse_hash_type s) ≡ length s)
unfolding parse_hash_type
parse_hash_type-Fit s =
    first_match-Fit (length s) (rows_at (length s) length_table) s
      (rows_at-Fit (length s) length_table length_table-AllFit)

text_len-regular : (t : HashType) → IsRegular t → (text_len t ≡ base58_len t) × (0 < text_len t)
unfolding text_len base58_len
text_len-regular _ IsRegular.chain_id = (refl, omega arith)
text_len-regular _ IsRegular.pkh_ed25519 = (refl, omega arith)
text_len-regular _ IsRegular.pkh_secp256k1 = (refl, omega arith)
text_len-regular _ IsRegular.pkh_p256 = (refl, omega arith)
text_len-regular _ IsRegular.pkh_nocurve = (refl, omega arith)
text_len-regular _ IsRegular.block = (refl, omega arith)
text_len-regular _ IsRegular.operation = (refl, omega arith)
text_len-regular _ IsRegular.operation_list = (refl, omega arith)
text_len-regular _ IsRegular.operation_list_list = (refl, omega arith)
text_len-regular _ IsRegular.protocol = (refl, omega arith)
text_len-regular _ IsRegular.context = (refl, omega arith)
text_len-regular _ IsRegular.nonce = (refl, omega arith)
text_len-regular _ IsRegular.seed_ed25519 = (refl, omega arith)
text_len-regular _ IsRegular.pk_ed25519 = (refl, omega arith)
text_len-regular _ IsRegular.sk_ed25519 = (refl, omega arith)
text_len-regular _ IsRegular.pk_secp256k1 = (refl, omega arith)
text_len-regular _ IsRegular.sk_secp256k1 = (refl, omega arith)
text_len-regular _ IsRegular.pk_p256 = (refl, omega arith)
text_len-regular _ IsRegular.sk_p256 = (refl, omega arith)
text_len-regular _ IsRegular.scalar_secp256k1 = (refl, omega arith)
text_len-regular _ IsRegular.element_secp256k1 = (refl, omega arith)
text_len-regular _ IsRegular.script_expr = (refl, omega arith)
text_len-regular _ IsRegular.encrypted_seed_ed25519 = (refl, omega arith)
text_len-regular _ IsRegular.encrypted_sk_secp256k1 = (refl, omega arith)
text_len-regular _ IsRegular.encrypted_sk_p256 = (refl, omega arith)
text_len-regular _ IsRegular.sig_ed25519 = (refl, omega arith)
text_len-regular _ IsRegular.sig_secp256k1 = (refl, omega arith)
text_len-regular _ IsRegular.sig_p256 = (refl, omega arith)
text_len-regular _ IsRegular.sig_generic = (refl, omega arith)

text_len-irregular : (t : HashType) → IsIrregular t → (text_len t ≢ base58_len t) × (0 < text_len t)
unfolding text_len base58_len
text_len-irregular _ IsIrregular.id = (λ e. omega (arith, e), omega arith)
text_len-irregular _ IsIrregular.pkh_blinded = (λ e. omega (arith, e), omega arith)

valid : (t : HashType) → 0 < text_len t → t ≢ HashType.invalid
unfolding text_len base58_len
valid t h e = omega (arith, h, ap text_len e)

-- `ParseHashType` reads a text as one of the types exactly if the text is as long as `Base58Len` says
-- of the type and starts with its prefix. The condition: the type is neither of `HashTypeId` and
-- `HashTypePkhBlinded`.
pub parse_hash_type_iff :
    (s : List ℕ) (t : HashType)
    → IsRegular t
    → (parse_hash_type s ≡ t) ↔ ((length s ≡ base58_len t) × (has_prefix s (prefix t) ≡ true))
unfolding parse_hash_type
parse_hash_type_iff s t r =
    let (same, positive) = text_len-regular t r in
    (
      λ e.
          let (starts, long) = parse_hash_type-Fit s (λ z. valid t positive (sym e ∙ z)) in
          (sym long ∙ ap text_len e ∙ same, subst (λ u. has_prefix s (prefix u) ≡ true) e starts),
      λ (long, starts).
          ap (λ n. first_match (rows_at n length_table) s) long
          ∙ first_match-row_of (prefix t) s (rows_at (base58_len t) length_table) t (decided t r)
              starts,
    )

-- No text that is as long as `Base58Len` says is read as `HashTypeId` or as `HashTypePkhBlinded`.
pub parse_hash_type_irregular :
    (s : List ℕ) (t : HashType) → IsIrregular t → length s ≡ base58_len t → parse_hash_type s ≢ t
parse_hash_type_irregular s t r long e =
    let (other, positive) = text_len-irregular t r in
    let (starts, read) = parse_hash_type-Fit s (λ z. valid t positive (sym e ∙ z)) in
    other (sym (ap text_len e) ∙ read ∙ long)
