-- ===== src/ReorgTests.antt =====
-- A run of the search for a fork point at a concrete input.
use tezos_index.Common.{
  ℕ, ◌≡◌, ◌⊎◌, inl, inr, refl, ap, ◌∙◌, arith, subst, sym, true, List, [], ◌∷◌, ◌++◌, none, some,
  ◌==◌, same_bytes, same_bytes-eq, if◌then◌else◌, Bool-cases,
}
use tezos_index.Puller.Reorg.{ReorgBlock, Sources, plan_blocks}
use tezos_index.Puller.Reorg.Chains.{IsTips, Falls, Climbs}
use tezos_index.Puller.Reorg.Connect.{IsLinked, IsFaithful, plan_blocks-connects}

-- The side chain ends in the tip, the main chain in `middle` and `best`; both start at `fork`.
abbrev fork : ReorgBlock
fork = record { parent_id = 1; hash = 10 ∷ []; parent_hash = 9 ∷ [] }

abbrev tip : ReorgBlock
tip = record { parent_id = 2; hash = 21 ∷ []; parent_hash = 10 ∷ [] }

abbrev middle : ReorgBlock
middle = record { parent_id = 2; hash = 31 ∷ []; parent_hash = 10 ∷ [] }

abbrev best : ReorgBlock
best = record { parent_id = 0; hash = 32 ∷ []; parent_hash = 31 ∷ [] }

abbrev parent : List ℕ → List ℕ
parent h =
    if same_bytes h tip.hash
    then fork.hash
    else if same_bytes h best.hash
    then middle.hash
    else if same_bytes h middle.hash
    then fork.hash
    else 9 ∷ []

abbrev env : Sources
env = record {
  tips = λ h.
      if same_bytes h tip.hash
      then some (tip.hash ∷ fork.hash ∷ [])
      else if same_bytes h best.hash
      then some (best.hash ∷ middle.hash ∷ fork.hash ∷ [])
      else none;
  fetch = λ b. true;
  by_id = λ id. if id == 2 then some fork else none;
  by_hash = λ h. if same_bytes h middle.hash then some middle else none;
  fetched = λ h. none;
  loads = λ b. true;
}

abbrev Stored : ReorgBlock → Type 0
Stored b = (b ≡ tip) ⊎ (b ≡ fork)

tips-tip : (hs : List (List ℕ)) → env.tips tip.hash ≡ some hs → IsTips parent tip.hash hs
unfolding IsTips
tips-tip hs e =
    let same : tip.hash ∷ fork.hash ∷ [] ≡ hs = cc in
    subst (IsTips parent tip.hash) same (refl, (refl, tt))

tips-best : (hs : List (List ℕ)) → env.tips best.hash ≡ some hs → IsTips parent best.hash hs
unfolding IsTips
tips-best hs e =
    let same : best.hash ∷ middle.hash ∷ fork.hash ∷ [] ≡ hs = cc in
    subst (IsTips parent best.hash) same (refl, (refl, (refl, tt)))

env-tips : (h : List ℕ) (hs : List (List ℕ)) → env.tips h ≡ some hs → IsTips parent h hs
env-tips h hs e = elim (Bool-cases (same_bytes h tip.hash)) [
  | inl is_tip ↦ at tip.hash is_tip (tips-tip hs)
  | inr other ↦ elim (Bool-cases (same_bytes h best.hash)) [
    | inl is_best ↦ at best.hash is_best (tips-best hs)
    | inr unknown ↦ ground arith
  ]
]
  where
    at :
        (g : List ℕ)
        → same_bytes h g ≡ true
        → (env.tips g ≡ some hs → IsTips parent g hs)
        → IsTips parent h hs
    at g same k =
        let there = same_bytes-eq h g same in
        subst (λ x. IsTips parent x hs) (sym there) (k (subst (λ x. env.tips x ≡ some hs) there e))

env-by_id :
    (b p : ReorgBlock)
    → Stored b
    → env.by_id b.parent_id ≡ some p
    → (p.hash ≡ b.parent_hash) × Stored p
env-by_id b p (inl s) e =
    let found : some fork ≡ some p = subst (λ x. env.by_id x.parent_id ≡ some p) s e in
    let same : fork ≡ p = cc in
    (sym (ap (λ x. x.hash) same) ∙ sym (ap (λ x. x.parent_hash) s), inr (sym same))
env-by_id b p (inr s) e =
    let found : none ≡ some p = subst (λ x. env.by_id x.parent_id ≡ some p) s e in cc

env-by_hash :
    (h : List ℕ) (p : ReorgBlock) → env.by_hash h ≡ some p → (p.hash ≡ h) × IsLinked parent p
env-by_hash h p e = elim (Bool-cases (same_bytes h middle.hash)) [
  | inl is_middle ↦
      let there = same_bytes-eq h middle.hash is_middle in
      let found : some middle ≡ some p = subst (λ x. env.by_hash x ≡ some p) there e in
      let same : middle ≡ p = cc in
      (sym (ap (λ x. x.hash) same) ∙ sym there, subst (IsLinked parent) same refl)
  | inr other ↦ ground arith
]

env-stored : (b : ReorgBlock) → Stored b → IsLinked parent b
env-stored b (inl s) = subst (IsLinked parent) (sym s) refl
env-stored b (inr s) = subst (IsLinked parent) (sym s) refl

env-IsFaithful : IsFaithful parent Stored env
env-IsFaithful = record {
  tips = env-tips;
  stored = env-stored;
  by_id = env-by_id;
  by_hash = env-by_hash;
  fetched = λ h p e. cc;
}

plan_blocks-connects_example :
    Falls (tip ∷ []) tip.hash fork.hash × Climbs ((middle ∷ []) ++ (best ∷ [])) fork.hash best.hash
unfolding plan_blocks
plan_blocks-connects_example =
    plan_blocks-connects parent Stored env env-IsFaithful tip best
      (record { fork = fork; detach = tip ∷ []; attach = middle ∷ [] }) (inl refl) refl refl
