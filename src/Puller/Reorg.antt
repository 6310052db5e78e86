-- ===== src/Puller/Reorg.antt =====
-- puller/reorg.go: `getReorganizeBlocks`, which finds the fork point of two chains, the blocks to
-- detach back to it and the blocks to attach from it. The node and the database are parameters.
pub mod Chains
pub mod Connect
use tezos_index.Common.{
  ℕ, zero, suc, Bool, true, false, List, [], ◌∷◌, ◌++◌, ◌&&◌, Option, none, some, same_bytes,
  if◌then◌else◌,
}

-- What the reorganisation reads of a block: the hashes come from the RPC data of the block.
pub record ReorgBlock : Type 0 where
  pub parent_id : ℕ
  pub hash : List ℕ
  pub parent_hash : List ℕ

pub data ReorgError : Type 0 where
  empty_chain no_fork_point missing_block : ReorgError

-- The blocks to detach and to attach, and the fork block.
pub record Plan : Type 0 where
  pub fork : ReorgBlock
  pub detach : List ReorgBlock
  pub attach : List ReorgBlock

pub data Reorg (A : Type 0) : Type 0 where
  ok : A → Reorg A
  failed : ReorgError → Reorg A

infixl 5 ◌>>=◌
abbrev pub ◌>>=◌ : {A B : Type 0} → Reorg A → (A → Reorg B) → Reorg B
ok a >>= f = f a
failed e >>= f = failed e

abbrev pub or_fail : {A : Type 0} → ReorgError → Option A → Reorg A
or_fail e none = failed e
or_fail e (some a) = ok a

abbrev next : Option ℕ → Option ℕ
next none = none
next (some j) = some (suc j)

-- The inner loop of the search: the depth of a hash in the main chain.
unfoldable pub index_of : List ℕ → List (List ℕ) → Option ℕ
index_of h [] = none
index_of h (m ∷ main) = let rest = index_of h main in if same_bytes h m then some 0 else next rest

abbrev deeper : Option (ℕ × ℕ) → Option (ℕ × ℕ)
deeper none = none
deeper (some d) = some (suc d.0, d.1)

-- The search: the depth of the fork point in the side chain and in the main chain.
unfoldable pub find_fork : List (List ℕ) → List (List ℕ) → Option (ℕ × ℕ)
unfolding index_of
find_fork [] main = none
find_fork (s ∷ side) main =
    let rest = find_fork side main in
    elim (index_of s main) [ some j ↦ some (0, j) | none ↦ deeper rest ]

-- How many blocks to detach and to attach: all of the main chain above the fork point but the best
-- block, and none on a rollback. Where the best block itself is the fork point the count is negative.
unfoldable pub fork_depths : Bool → Option (ℕ × ℕ) → Reorg (ℕ × ℕ)
fork_depths only none = failed ReorgError.no_fork_point
fork_depths true (some d) = ok (d.0, 0)
fork_depths false (some (side, zero)) = failed ReorgError.no_fork_point
fork_depths false (some (side, suc main)) = ok (side, main)

abbrev pub and_then : {A B : Type 0} → Option A → (A → Option B) → Option B
and_then none f = none
and_then (some a) f = f a

module _ (parent_of : ReorgBlock → Option ReorgBlock) where
  -- `n` blocks from one on, each followed by its parent, and the block behind them.
  unfoldable pub collect : ℕ → ReorgBlock → Option (List ReorgBlock × ReorgBlock)
  collect zero b = some ([], b)
  collect (suc n) b =
      and_then (parent_of b) (λ p. and_then (collect n p) (λ r. some (b ∷ r.0, r.1)))

  -- The parents of a block, the last of `n` first.
  unfoldable pub ancestors : ℕ → ReorgBlock → List ReorgBlock → Option (List ReorgBlock)
  ancestors zero b above = some above
  ancestors (suc n) b above = and_then (parent_of b) (λ p. ancestors n p (p ∷ above))

-- What the reorganisation asks of the node and of the database: the hashes down from a block; whether
-- the RPC data of a block can be had; a block by its id and by its hash; a block built from the node's
-- data; and whether the chain state, the supply and the parent of the fork block can be loaded.
pub record Sources : Type 0 where
  pub tips : List ℕ → Option (List (List ℕ))
  pub fetch : ReorgBlock → Bool
  pub by_id : ℕ → Option ReorgBlock
  pub by_hash : List ℕ → Option ReorgBlock
  pub fetched : List ℕ → Option ReorgBlock
  pub loads : ReorgBlock → Bool

-- One turn of the loop down the side chain.
abbrev pub side_parent : Sources → ReorgBlock → Option ReorgBlock
side_parent env b = if env.fetch b then env.by_id b.parent_id else none

abbrev if_fetched : Sources → Option ReorgBlock → Option ReorgBlock → Option ReorgBlock
if_fetched env none new = new
if_fetched env (some p) new = if env.fetch p then some p else none

-- One turn of the loop down the main chain: a block that the database does not have is built from the
-- node's data.
unfoldable pub main_parent : Sources → ReorgBlock → Option ReorgBlock
main_parent env b = if_fetched env (env.by_hash b.parent_hash) (env.fetched b.parent_hash)

-- The two walks over the blocks, of known lengths, and what the fork block needs.
unfoldable pub walk_blocks : Sources → ReorgBlock → ReorgBlock → ℕ → ℕ → Reorg Plan
unfolding collect ancestors main_parent
walk_blocks env tip best down up =
    or_fail ReorgError.missing_block (collect (side_parent env) down tip) >>= λ side.
    or_fail ReorgError.missing_block
      (if env.fetch best then ancestors (main_parent env) up best [] else none)
    >>= λ attach.
        if env.fetch side.1 && env.loads side.1
        then ok (record { fork = side.1; detach = side.0; attach = attach })
        else failed ReorgError.missing_block

-- The search and the walks, where there is a tip and a best block.
unfoldable pub plan_blocks : Sources → Bool → ReorgBlock → ReorgBlock → Reorg Plan
unfolding find_fork fork_depths walk_blocks
plan_blocks env rollback_only tip best =
    or_fail ReorgError.empty_chain (env.tips tip.hash) >>= λ side.
    or_fail ReorgError.empty_chain (env.tips best.hash) >>= λ main.
    fork_depths rollback_only (find_fork side main) >>= λ d. walk_blocks env tip best d.0 d.1

-- `getReorganizeBlocks`; with no tip or no best block there is nothing to do.
unfoldable pub get_reorganize_blocks :
    Sources → Bool → Option ReorgBlock → Option ReorgBlock → Reorg (Option Plan)
unfolding plan_blocks
get_reorganize_blocks env rollback_only (some tip) (some best) =
    plan_blocks env rollback_only tip best >>= λ plan. ok (some plan)
get_reorganize_blocks env rollback_only _ _ = ok none
