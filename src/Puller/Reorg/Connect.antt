-- ===== src/Puller/Reorg/Connect.antt =====
-- puller/reorg.go: the blocks to detach and to attach, as chains between the tip, the fork block and the
-- best block.
use tezos_index.Common.{
  ℕ, zero, suc, ◌≡◌, refl, sym, ap, ◌∙◌, subst, arith, false, List, [], ◌∷◌, ◌++◌, ◌&&◌, Option,
  none, some, if◌then◌else◌, Bool-cases, Option-cases, inl, inr,
}
use tezos_index.Puller.Reorg.{
  ReorgBlock, and_then, ReorgError, Plan, Reorg, ok, failed, find_fork, fork_depths, collect,
  ancestors, Sources, side_parent, main_parent, plan_blocks, walk_blocks, or_fail, ◌>>=◌,
}
use tezos_index.Puller.Reorg.Chains.{up, IsTips, Falls, Climbs, find_fork-found}

and_then-eq-some :
    {A B : Type 0} (o : Option A) (f : A → Option B) (r : B)
    → and_then o f ≡ some r
    → (a : A) × (o ≡ some a) × (f a ≡ some r)
and_then-eq-some none f r e = cc
and_then-eq-some (some a) f r e = (a, refl, e)

some-injective : {A : Type 0} {a b : A} → some a ≡ some b → a ≡ b
some-injective e = cc

-- A block whose parent is the one that its hash has, and a step that goes from such a block to its
-- parent.
abbrev pub IsLinked : (List ℕ → List ℕ) → ReorgBlock → Type 0
IsLinked parent b = b.parent_hash ≡ parent b.hash

abbrev pub Follows : (ReorgBlock → Type 0) → (ReorgBlock → Option ReorgBlock) → Type 0
Follows P step = (b p : ReorgBlock) → P b → step b ≡ some p → (p.hash ≡ b.parent_hash) × P p

module _ (parent : List ℕ → List ℕ) (step : ReorgBlock → Option ReorgBlock)
    (P : ReorgBlock → Type 0) (follows : Follows P step)
    (links : (b : ReorgBlock) → P b → IsLinked parent b) where
  collect-Falls :
      (n : ℕ) (b fork : ReorgBlock) (bs : List ReorgBlock)
      → P b
      → collect step n b ≡ some (bs, fork)
      → Falls bs b.hash fork.hash × (fork.hash ≡ up parent n b.hash)
  unfolding collect Falls up
  collect-Falls zero b fork bs l e =
      let same : (b ≡ fork) × ([] ≡ bs) = ground arith in
      subst (λ x. Falls x b.hash fork.hash × (fork.hash ≡ b.hash)) same.1
        (ap (λ x. x.hash) same.0, sym (ap (λ x. x.hash) same.0))
  collect-Falls (suc n) b fork bs l e =
      let (p, at, rest) =
        and_then-eq-some (step b) (λ p. and_then (collect step n p) (λ r. some (b ∷ r.0, r.1)))
          (bs, fork) e in
      let (r, at', made) =
        and_then-eq-some (collect step n p) (λ r. some (b ∷ r.0, r.1)) (bs, fork) rest in
      let same : (b ∷ r.0 ≡ bs) × (r.1 ≡ fork) = ground arith in
      let (hash, good) = follows b p l at in
      let (falls, deep) = collect-Falls n p r.1 r.0 good at' in
      let joined : p.hash ≡ parent b.hash = hash ∙ links b l in
      subst (λ x. Falls x b.hash fork.hash × (fork.hash ≡ up parent n (parent b.hash))) same.0
        (
          (
            refl,
            subst (λ x. Falls r.0 x fork.hash) hash
                (subst (λ x. Falls r.0 p.hash x.hash) same.1 falls),
          ),
          sym (ap (λ x. x.hash) same.1) ∙ deep ∙ ap (up parent n) joined,
        )

  -- The parents collected so far, and the block that they lead to, climb from the parent of the last.
  ancestors-Climbs :
      (n : ℕ) (b best : ReorgBlock) (above attach : List ReorgBlock)
      → P b
      → Climbs (above ++ (best ∷ [])) b.parent_hash best.hash
      → ancestors step n b above ≡ some attach
      → Climbs (attach ++ (best ∷ [])) (up parent n b.parent_hash) best.hash
  unfolding ancestors Climbs up
  ancestors-Climbs zero b best above attach l c e =
      subst (λ x. Climbs (x ++ (best ∷ [])) b.parent_hash best.hash) (some-injective e) c
  ancestors-Climbs (suc n) b best above attach l c e =
      let (p, at, rest) =
        and_then-eq-some (step b) (λ p. ancestors step n p (p ∷ above)) attach e in
      let (hash, good) = follows b p l at in
      subst (λ x. Climbs (attach ++ (best ∷ [])) (up parent n x) best.hash)
        (links p good ∙ ap parent hash)
        (ancestors-Climbs n p best (p ∷ above) attach good
          (refl, subst (λ x. Climbs (above ++ (best ∷ [])) x best.hash) (sym hash) c) rest)

>>=-eq-ok :
    {A B : Type 0} (m : Reorg A) (f : A → Reorg B) (r : B)
    → (m >>= f) ≡ ok r
    → (a : A) × (m ≡ ok a) × (f a ≡ ok r)
>>=-eq-ok (ok a) f r e = (a, refl, e)
>>=-eq-ok (failed x) f r e = cc

or_fail-eq-ok :
    {A : Type 0} (x : ReorgError) (o : Option A) (a : A) → or_fail x o ≡ ok a → o ≡ some a
or_fail-eq-ok x none a e = cc
or_fail-eq-ok x (some b) a e = cc

fork_depths-eq-ok :
    (o : Option (ℕ × ℕ)) (i n : ℕ) → fork_depths false o ≡ ok (i, n) → o ≡ some (i, suc n)
unfolding fork_depths
fork_depths-eq-ok none i n e = cc
fork_depths-eq-ok (some (a, zero)) i n e = cc
fork_depths-eq-ok (some (a, suc b)) i n e = ground arith

-- What the reorganisation relies on: the node gives the hashes of one chain, the database links a
-- stored block to its parent by the id, and gives a block by its hash, as the node does.
pub record IsFaithful (parent : List ℕ → List ℕ) (Stored : ReorgBlock → Type 0) (env : Sources)
    : Type 0 where
  pub tips : (h : List ℕ) (hs : List (List ℕ)) → env.tips h ≡ some hs → IsTips parent h hs
  pub stored : (b : ReorgBlock) → Stored b → IsLinked parent b
  pub by_id :
      (b p : ReorgBlock)
      → Stored b
      → env.by_id b.parent_id ≡ some p
      → (p.hash ≡ b.parent_hash) × Stored p
  pub by_hash :
      (h : List ℕ) (p : ReorgBlock) → env.by_hash h ≡ some p → (p.hash ≡ h) × IsLinked parent p
  pub fetched :
      (h : List ℕ) (p : ReorgBlock) → env.fetched h ≡ some p → (p.hash ≡ h) × IsLinked parent p

module _ (parent : List ℕ → List ℕ) (Stored : ReorgBlock → Type 0) (env : Sources)
    (faithful : IsFaithful parent Stored env) where
  side_parent-Follows : Follows Stored (side_parent env)
  side_parent-Follows b p s e = elim (Bool-cases (env.fetch b)) [
    | inl had ↦ faithful.by_id b p s (ground arith)
    | inr not_had ↦ ground arith
  ]

  main_parent-Follows : Follows (IsLinked parent) (main_parent env)
  unfolding main_parent
  main_parent-Follows b p l e = elim (Option-cases (env.by_hash b.parent_hash)) [
    | inl missing ↦ faithful.fetched b.parent_hash p (ground arith)
    | inr (q, at) ↦ elim (Bool-cases (env.fetch q)) [
      | inl had ↦ faithful.by_hash b.parent_hash p (ground arith)
      | inr not_had ↦ ground arith
    ]
  ]

  walk_blocks-connects :
      (tip best : ReorgBlock) (plan : Plan) (i n : ℕ)
      → Stored tip
      → IsLinked parent best
      → up parent i tip.hash ≡ up parent n best.parent_hash
      → walk_blocks env tip best i n ≡ ok plan
      → Falls plan.detach tip.hash plan.fork.hash
        × Climbs (plan.attach ++ (best ∷ [])) plan.fork.hash best.hash
  unfolding walk_blocks Climbs
  walk_blocks-connects tip best plan i n st lb meet e =
      let found = collect (side_parent env) i tip in
      let above = if env.fetch best then ancestors (main_parent env) n best [] else none in
      let close : List ReorgBlock × ReorgBlock → List ReorgBlock → Reorg Plan = λ side attach.
        if env.fetch side.1 && env.loads side.1
        then ok (record { fork = side.1; detach = side.0; attach = attach })
        else failed ReorgError.missing_block in
      let (side, e1, r1) =
        >>=-eq-ok (or_fail ReorgError.missing_block found)
          (λ side. or_fail ReorgError.missing_block above >>= close side) plan e in
      let (attach, e2, r2) =
        >>=-eq-ok (or_fail ReorgError.missing_block above) (close side) plan r1 in
      let (falls, deep) =
        collect-Falls parent (side_parent env) Stored side_parent-Follows faithful.stored i tip
          side.1 side.0 st (or_fail-eq-ok ReorgError.missing_block found side e1) in
      let climbs =
        ancestors-Climbs parent (main_parent env) (IsLinked parent) main_parent-Follows (λ b l. l) n
          best best [] attach lb (refl, refl)
          (had (or_fail-eq-ok ReorgError.missing_block above attach e2)) in
      subst
        (λ p.
          Falls p.detach tip.hash p.fork.hash
          × Climbs (p.attach ++ (best ∷ [])) p.fork.hash best.hash)
        (closed r2)
        (
          falls,
          subst (λ x. Climbs (attach ++ (best ∷ [])) x best.hash) (sym meet ∙ sym deep) climbs,
        )
    where
      had :
          {attach : List ReorgBlock}
          → (if env.fetch best then ancestors (main_parent env) n best [] else none) ≡ some attach
          → ancestors (main_parent env) n best [] ≡ some attach
      had {attach} e = elim (Bool-cases (env.fetch best)) [
        | inl t ↦ ground arith
        | inr f ↦ ground arith
      ]

      closed :
          {side : List ReorgBlock × ReorgBlock} {attach : List ReorgBlock}
          → (if env.fetch side.1 && env.loads side.1
              then ok (record { fork = side.1; detach = side.0; attach = attach })
              else failed ReorgError.missing_block)
            ≡ ok plan
          → record { fork = side.1; detach = side.0; attach = attach } ≡ plan
      closed {side} {attach} e = elim (Bool-cases (env.fetch side.1 && env.loads side.1)) [
        | inl t ↦ ground arith
        | inr f ↦ ground arith
      ]

  -- Where the search succeeds, the blocks to detach lead from the tip, each to its parent, down to the
  -- fork block, and the blocks to attach with the best block lead, each to its child, from the same
  -- fork block up to the best one. The conditions: the tip is a stored block, no rollback is asked
  -- for, and the node and the database give the blocks of the chain.
  pub plan_blocks-connects :
      (tip best : ReorgBlock) (plan : Plan)
      → Stored tip
      → IsLinked parent best
      → plan_blocks env false tip best ≡ ok plan
      → Falls plan.detach tip.hash plan.fork.hash
        × Climbs (plan.attach ++ (best ∷ [])) plan.fork.hash best.hash
  unfolding plan_blocks up
  plan_blocks-connects tip best plan st lb e =
      let walk : ℕ × ℕ → Reorg Plan = λ d. walk_blocks env tip best d.0 d.1 in
      let search : List (List ℕ) → List (List ℕ) → Reorg Plan =
        λ side main. fork_depths false (find_fork side main) >>= walk in
      let tip_chain = or_fail ReorgError.empty_chain (env.tips tip.hash) in
      let best_chain = or_fail ReorgError.empty_chain (env.tips best.hash) in
      let (side, e1, r1) = >>=-eq-ok tip_chain (λ side. best_chain >>= search side) plan e in
      let (main, e2, r2) = >>=-eq-ok best_chain (search side) plan r1 in
      let (d, e3, r3) = >>=-eq-ok (fork_depths false (find_fork side main)) walk plan r2 in
      let meet =
        find_fork-found parent tip.hash best.hash side main d.0 (suc d.1)
          (faithful.tips tip.hash side
            (or_fail-eq-ok ReorgError.empty_chain (env.tips tip.hash) side e1))
          (faithful.tips best.hash main
            (or_fail-eq-ok ReorgError.empty_chain (env.tips best.hash) main e2))
          (fork_depths-eq-ok (find_fork side main) d.0 d.1 e3) in
      walk_blocks-connects tip best plan d.0 d.1 st lb (meet ∙ ap (up parent d.1) (sym lb)) r3
