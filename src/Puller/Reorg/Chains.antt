-- ===== src/Puller/Reorg/Chains.antt =====
-- puller/reorg.go: chains of blocks by their hashes, and what the search for a fork point finds.
use tezos_index.Common.{
  ℕ, zero, suc, ◌≡◌, sym, ◌∙◌, arith, List, [], ◌∷◌, some, same_bytes, same_bytes-eq, Bool-cases,
  Option-cases, inl, inr,
}
use tezos_index.Puller.Reorg.{ReorgBlock, index_of, find_fork}

-- The parent's hash, as often as a number says.
unfoldable pub up : (List ℕ → List ℕ) → ℕ → List ℕ → List ℕ
up parent zero h = h
up parent (suc n) h = up parent n (parent h)

-- A chain of hashes as the node gives it: a hash, its parent, and so on.
unfoldable pub IsTips : (List ℕ → List ℕ) → List ℕ → List (List ℕ) → Type 0
IsTips parent h [] = Unit {0}
IsTips parent h (x ∷ xs) = (x ≡ h) × IsTips parent (parent h) xs

-- Blocks that follow each other down to a hash, each the parent of the one before.
unfoldable pub Falls : List ReorgBlock → List ℕ → List ℕ → Type 0
Falls [] top bottom = top ≡ bottom
Falls (b ∷ bs) top bottom = (b.hash ≡ top) × Falls bs b.parent_hash bottom

-- Blocks that follow each other up from a hash to a hash, each the child of the one before.
unfoldable pub Climbs : List ReorgBlock → List ℕ → List ℕ → Type 0
Climbs [] bottom top = bottom ≡ top
Climbs (b ∷ bs) bottom top = (b.parent_hash ≡ bottom) × Climbs bs b.hash top

pub index_of-found :
    (parent : List ℕ → List ℕ) (h m : List ℕ) (main : List (List ℕ)) (j : ℕ)
    → IsTips parent m main
    → index_of h main ≡ some j
    → h ≡ up parent j m
unfolding index_of IsTips up
index_of-found parent h m [] j t e = cc
index_of-found parent h m (x ∷ main) zero t e = elim (Bool-cases (same_bytes h x)) [
  | inl same ↦ same_bytes-eq h x same ∙ t.0
  | inr other ↦ elim (Option-cases (index_of h main)) [
    | inl gone ↦ ground arith
    | inr (k, at) ↦ ground arith
  ]
]
index_of-found parent h m (x ∷ main) (suc j) t e = elim (Bool-cases (same_bytes h x)) [
  | inl same ↦ ground arith
  | inr other ↦ elim (Option-cases (index_of h main)) [
    | inl gone ↦ ground arith
    | inr (k, at) ↦ index_of-found parent h (parent m) main j t.1 (ground arith)
  ]
]

-- The two depths are those of one hash.
pub find_fork-found :
    (parent : List ℕ → List ℕ) (s m : List ℕ) (side main : List (List ℕ)) (i j : ℕ)
    → IsTips parent s side
    → IsTips parent m main
    → find_fork side main ≡ some (i, j)
    → up parent i s ≡ up parent j m
unfolding find_fork IsTips up
find_fork-found parent s m [] main i j ts tm e = cc
find_fork-found parent s m (x ∷ side) main zero j ts tm e = elim (Option-cases (index_of x main)) [
  | inr (k, at) ↦ sym ts.0 ∙ index_of-found parent x m main j tm (ground arith)
  | inl gone ↦ elim (Option-cases (find_fork side main)) [
    | inl no_fork ↦ ground arith
    | inr (d, at) ↦ ground arith
  ]
]
find_fork-found parent s m (x ∷ side) main (suc i) j ts tm e =
    elim (Option-cases (index_of x main)) [
      | inr (k, at) ↦ ground arith
      | inl gone ↦ elim (Option-cases (find_fork side main)) [
        | inl no_fork ↦ ground arith
        | inr (d, at) ↦ find_fork-found parent (parent s) m side main i j ts.1 tm (ground arith)
      ]
    ]
