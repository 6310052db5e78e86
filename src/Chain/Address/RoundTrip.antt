-- ===== src/Chain/Address/RoundTrip.antt =====
-- chain/addr.go: reading a binary form back.
use mathlib.Core.List.{append_assoc, append-nil}
use tezos_index.Common.{
  ℕ, subst, ◌≡◌, ◌≤◌, refl, arith, Bool, true, false, ◌&&◌, ◌||◌, List, [], ◌∷◌, ◌++◌, Option, none,
  some, ◌==◌, leb, if◌then◌else◌, length, take, length-append, take-length-append, length-take_all,
}
use tezos_index.Chain.HashType.{byte_len}
use tezos_index.Chain.Address.{AddressType, Address}
use tezos_index.Chain.Address.Binary.{
  AddressError, is_valid_type, tag, parse_address_tag, hash_type, is_valid, to_bytes,
  marshal_binary, unmarshal_binary, set_address,
}

-- The types that have a tag, or a form of their own.
pub data HasForm : AddressType → Type 0 where
  ed25519 : HasForm AddressType.ed25519
  secp256k1 : HasForm AddressType.secp256k1
  p256 : HasForm AddressType.p256
  contract : HasForm AddressType.contract

take_hash : (hash pad : List ℕ) → length hash ≡ 20 → take 20 (hash ++ pad) ≡ hash
take_hash hash pad e = subst (λ n. take n (hash ++ pad) ≡ hash) e (take-length-append hash pad)

take_all : (hash : List ℕ) → length hash ≡ 20 → take 20 hash ≡ hash
take_all hash e = subst (λ l. take 20 l ≡ hash) (append-nil hash) (take_hash hash [] e)

-- The 22-byte form behind a tag.
unmarshal_tagged :
    (old : Address) (type : AddressType) (hash pad : List ℕ)
    → parse_address_tag (tag type) ≡ type
    → is_valid_type type ≡ true
    → length hash ≡ 20
    → unmarshal_binary old (0 ∷ tag type ∷ (hash ++ pad))
      ≡ (record { type = type; hash = hash }, none)
unfolding unmarshal_binary set_address
unmarshal_tagged old type hash pad back valid e =
    let long : leb 20 (length (hash ++ pad)) ≡ true = ground (arith, length-append hash pad) in
    rw (long, back, valid, take_hash hash pad e) refl

unmarshal_contract :
    (old : Address) (hash pad : List ℕ)
    → length hash ≡ 20
    → unmarshal_binary old (1 ∷ ((hash ++ (0 ∷ [])) ++ pad))
      ≡ (record { type = AddressType.contract; hash = hash }, none)
unfolding unmarshal_binary set_address is_valid_type
unmarshal_contract old [] pad e = absurd (omega (arith, e))
unmarshal_contract old (c ∷ hash) pad e =
    let long : leb 20 (length ((hash ++ (0 ∷ [])) ++ pad)) ≡ true =
      ground (arith, length-append (hash ++ (0 ∷ [])) pad, length-append hash (0 ∷ [])) in
    rw (long, append_assoc hash (0 ∷ []) pad, take_hash (c ∷ hash) (0 ∷ pad) e) refl

-- The 21-byte form.
unmarshal_short :
    (old : Address) (type : AddressType) (hash : List ℕ)
    → parse_address_tag (tag type) ≡ type
    → is_valid_type type ≡ true
    → length hash ≡ 20
    → unmarshal_binary old (tag type ∷ hash) ≡ (record { type = type; hash = hash }, none)
unfolding unmarshal_binary set_address
unmarshal_short old type [] back valid e = absurd (omega (arith, e))
unmarshal_short old type (c ∷ hash) back valid e =
    let short : leb 20 (length hash) ≡ false = ground arith in
    let enough : leb 19 (length hash) ≡ true = ground arith in
    rw (short, enough, back, valid, take_all (c ∷ hash) e) refl

-- The address of a type and a hash, from the form that each function writes.
marshal_back :
    (old : Address) (type : AddressType) (hash bytes pad : List ℕ)
    → HasForm type
    → length hash ≡ 20
    → marshal_binary (record { type = type; hash = hash }) ≡ some bytes
    → unmarshal_binary old (bytes ++ pad) ≡ (record { type = type; hash = hash }, none)
unfolding marshal_binary tag parse_address_tag is_valid_type
marshal_back old _ hash bytes pad HasForm.ed25519 e m =
    let made : 0 ∷ 0 ∷ hash ≡ bytes = cc in
    rw (← made) (unmarshal_tagged old AddressType.ed25519 hash pad refl refl e)
marshal_back old _ hash bytes pad HasForm.secp256k1 e m =
    let made : 0 ∷ 1 ∷ hash ≡ bytes = cc in
    rw (← made) (unmarshal_tagged old AddressType.secp256k1 hash pad refl refl e)
marshal_back old _ hash bytes pad HasForm.p256 e m =
    let made : 0 ∷ 2 ∷ hash ≡ bytes = cc in
    rw (← made) (unmarshal_tagged old AddressType.p256 hash pad refl refl e)
marshal_back old _ hash bytes pad HasForm.contract e m =
    let made : 1 ∷ (hash ++ (0 ∷ [])) ≡ bytes = cc in
    rw (← made) (unmarshal_contract old hash pad e)

bytes_back :
    (old : Address) (type : AddressType) (hash : List ℕ)
    → HasForm type
    → length hash ≡ 20
    → unmarshal_binary old (to_bytes (record { type = type; hash = hash }))
      ≡ (record { type = type; hash = hash }, none)
unfolding to_bytes parse_address_tag is_valid_type
bytes_back old _ hash HasForm.ed25519 e = unmarshal_short old AddressType.ed25519 hash refl refl e
bytes_back old _ hash HasForm.secp256k1 e =
    unmarshal_short old AddressType.secp256k1 hash refl refl e
bytes_back old _ hash HasForm.p256 e = unmarshal_short old AddressType.p256 hash refl refl e
bytes_back old _ hash HasForm.contract e =
    rw (← append-nil (hash ++ (0 ∷ []))) (unmarshal_contract old hash [] e)

-- An address is read back from its 22-byte form, whatever pads that form, and from the form of
-- `Bytes`. The conditions: the hash has 20 bytes, and the type is neither invalid nor blinded.
pub unmarshal_binary-marshal_binary :
    (old a : Address) (bytes pad : List ℕ)
    → HasForm a.type
    → length a.hash ≡ 20
    → marshal_binary a ≡ some bytes
    → (unmarshal_binary old (bytes ++ pad) ≡ (a, none))
      × (unmarshal_binary old (to_bytes a) ≡ (a, none))
unmarshal_binary-marshal_binary old a bytes pad f e m =
    (marshal_back old a.type a.hash bytes pad f e m, bytes_back old a.type a.hash f e)

set_address-is_valid :
    (old : Address) (type : AddressType) (hash : List ℕ)
    → length hash ≡ 20
    → (set_address old type hash).1 ≡ none
    → is_valid (set_address old type hash).0 ≡ true
unfolding set_address is_valid is_valid_type hash_type byte_len
set_address-is_valid old AddressType.invalid hash e d = cc
set_address-is_valid old AddressType.ed25519 hash e d = ground arith
set_address-is_valid old AddressType.secp256k1 hash e d = ground arith
set_address-is_valid old AddressType.p256 hash e d = ground arith
set_address-is_valid old AddressType.contract hash e d = ground arith
set_address-is_valid old AddressType.blinded hash e d = ground arith

IsRead : Address × Option AddressError → Type 0
unfolding is_valid
IsRead r = r.1 ≡ none → is_valid r.0 ≡ true

IsRead-if :
    (b : Bool) (x y : Address × Option AddressError)
    → (b ≡ true → IsRead x)
    → (b ≡ false → IsRead y)
    → IsRead (if b then x else y)
IsRead-if true x y p q = p refl
IsRead-if false x y p q = q refl

-- An address that is read without an error is valid.
pub unmarshal_binary-is_valid :
    (old : Address) (bytes : List ℕ)
    → (unmarshal_binary old bytes).1 ≡ none
    → is_valid (unmarshal_binary old bytes).0 ≡ true
unfolding unmarshal_binary IsRead
unmarshal_binary-is_valid old [] = λ e. cc
unmarshal_binary-is_valid old (b ∷ []) = λ e. cc
unmarshal_binary-is_valid old (b ∷ c ∷ rest) =
    let hashed : (type : AddressType) (xs : List ℕ)
        → 20 ≤ length xs
        → IsRead (set_address old type (take 20 xs)) =
      λ type xs h. set_address-is_valid old type (take 20 xs) (length-take_all 20 xs h) in
    let tagged = set_address old (parse_address_tag c) (take 20 rest) in
    let contract = set_address old AddressType.contract (take 20 (c ∷ rest)) in
    let short = set_address old (parse_address_tag b) (take 20 (c ∷ rest)) in
    let failed : Address × Option AddressError = (old, some AddressError.bad_length) in
    IsRead-if (leb 20 (length rest) && (b == 0 || b == 1)) (if b == 0 then tagged else contract)
      (if leb 19 (length rest) then short else failed)
      (λ e.
        IsRead-if (b == 0) tagged contract (λ z. hashed (parse_address_tag c) rest (ground arith))
          (λ z. hashed AddressType.contract (c ∷ rest) (ground arith)))
      (λ e.
        IsRead-if (leb 19 (length rest)) short failed
          (λ z. hashed (parse_address_tag b) (c ∷ rest) (ground arith)) (λ z w. cc))
