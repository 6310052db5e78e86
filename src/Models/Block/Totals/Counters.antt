-- ===== src/Models/Block/Totals/Counters.antt =====
-- puller/models/block.go: the counters of a block, and the operations that they count.
use tezos_index.Common.{
  ℕ, ◌≡◌, arith, refl, sym, ◌∙◌, ap, Bool, true, false, List, [], ◌∷◌, Option, none, some,
}
use tezos_index.Common.{◌==◌, if◌then◌else◌, length, Option-cases, inl, inr}
use mathlib.Core.Option.{some-injective}
use tezos_index.Common.Int64.{Int64, IsInt64, add64, add64_assoc, add64-IsInt64}
use tezos_index.Chain.OpType.{OpType}
use tezos_index.Models.FlowType.{FlowType}
use tezos_index.Models.Flow.{Flow}
use tezos_index.Models.Op.{Op}
use tezos_index.Models.Account.{Account}
use tezos_index.Models.Block.{Block}
use tezos_index.Models.Block.Totals.{
  reset_totals, add_op, count_op, count_ops, endorse, count_flow, count_flows, add_baking,
  add_unfrozen,
}
use tezos_index.Models.Block.Totals.{
  count_new, count_seen, count_account, count_accounts, count_delegate, count_delegates, update,
  count_rest, proceed,
}

abbrev index : OpType → ℕ
index OpType.bake = 0
index OpType.activate_account = 1
index OpType.double_baking_evidence = 2
index OpType.double_endorsement_evidence = 3
index OpType.seed_nonce_revelation = 4
index OpType.transaction = 5
index OpType.origination = 6
index OpType.delegation = 7
index OpType.reveal = 8
index OpType.endorsement = 9
index OpType.proposals = 10
index OpType.ballot = 11
index OpType.unfreeze = 12
index OpType.invoice = 13
index OpType.airdrop = 14
index OpType.seed_slash = 15
index OpType.endorsement_with_slot = 16
index OpType.invalid = 17

-- How many operations of a list are of a type, as an int64.
unfoldable pub occurrences : OpType → List Op → Int64
occurrences t [] = 0
occurrences t (o ∷ os) = add64 (if index t == index o.type then 1 else 0) (occurrences t os)

-- The value of the counter of a type; zero where there is none.
abbrev pub count : OpType → Block → Int64
count OpType.activate_account b = b.n_activation
count OpType.double_baking_evidence b = b.n2_baking
count OpType.double_endorsement_evidence b = b.n2_endorsement
count OpType.seed_nonce_revelation b = b.n_seed_nonce
count OpType.transaction b = b.n_tx
count OpType.origination b = b.n_origination
count OpType.delegation b = b.n_delegation
count OpType.reveal b = b.n_reveal
count OpType.endorsement b = b.n_endorsement
count OpType.proposals b = b.n_proposal
count OpType.ballot b = b.n_ballot
count _ b = 0

abbrev pub is_counted : OpType → Bool
is_counted OpType.bake = false
is_counted OpType.unfreeze = false
is_counted OpType.invoice = false
is_counted OpType.airdrop = false
is_counted OpType.seed_slash = false
is_counted OpType.endorsement_with_slot = false
is_counted OpType.invalid = false
is_counted _ = true

keep : (x : Int64) → IsInt64 x → add64 x 0 ≡ x
unfolding add64
keep x h = omega arith

count_op-count :
    (t u : OpType) (b : Block) (o : Op)
    → is_counted t ≡ true
    → IsInt64 (count t b)
    → count t (count_op u b o) ≡ add64 (count t b) (if index t == index u then 1 else 0)
unfolding count_op
count_op-count OpType.transaction OpType.transaction b o c h = refl
count_op-count t u b o c h = ground (arith, keep (count t b))

-- The other loops leave the counters alone.
add_op-count : (t : OpType) (b : Block) (o : Op) → count t (add_op b o) ≡ count t b
unfolding add_op
add_op-count OpType.bake b o = refl
add_op-count t b o = refl

count_flow-count :
    (t : OpType) (u : FlowType) (b : Block) (f : Flow) → count t (count_flow u b f) ≡ count t b
unfolding count_flow add_baking add_unfrozen
count_flow-count OpType.bake FlowType.transaction b f = refl
count_flow-count t u b f = ground arith

count_flows-count :
    (t : OpType) (b : Block) (fs : List Flow) → count t (count_flows b fs) ≡ count t b
unfolding count_flows
count_flows-count t b [] = refl
count_flows-count t b (f ∷ fs) =
    count_flows-count t (count_flow f.operation b f) fs ∙ count_flow-count t f.operation b f

count_seen-count : (t : OpType) (b : Block) (a : Account) → count t (count_seen b a) ≡ count t b
unfolding count_seen
count_seen-count OpType.bake b a = ground arith
count_seen-count t b a = ground arith

count_account-count :
    (t : OpType) (b : Block) (a : Account) → count t (count_account b a) ≡ count t b
unfolding count_account count_new
count_account-count OpType.bake b a = ground (arith, count_seen-count OpType.bake)
count_account-count t b a = ground (arith, count_seen-count t)

count_accounts-count :
    (t : OpType) (b : Block) (l : List Account) → count t (count_accounts b l) ≡ count t b
unfolding count_accounts
count_accounts-count t b [] = refl
count_accounts-count t b (a ∷ l) =
    count_accounts-count t (count_account b a) l ∙ count_account-count t b a

count_delegate-count :
    (t : OpType) (b : Block) (a : Account) → count t (count_delegate b a) ≡ count t b
unfolding count_delegate
count_delegate-count OpType.bake b a = ground (arith, count_seen-count OpType.bake)
count_delegate-count t b a = ground (arith, count_seen-count t)

count_delegates-count :
    (t : OpType) (b : Block) (l : List Account) → count t (count_delegates b l) ≡ count t b
unfolding count_delegates
count_delegates-count t b [] = refl
count_delegates-count t b (a ∷ l) =
    count_delegates-count t (count_delegate b a) l ∙ count_delegate-count t b a

pub nil_block :
    (endorsed : Op → Option (List Int64)) (b : Block) (slots : ℕ) (r : Block × ℕ)
    → count_ops endorsed b slots [] ≡ some r
    → b ≡ r.0
unfolding count_ops
nil_block endorsed b slots r e = ap (λ (p : Block × ℕ). p.0) (some-injective (b, slots) r e)

pub count_ops-cons :
    (endorsed : Op → Option (List Int64)) (b : Block) (slots : ℕ) (o : Op) (os : List Op)
    (r : Block × ℕ)
    → count_ops endorsed b slots (o ∷ os) ≡ some r
    → (s : ℕ) × (count_ops endorsed (count_op o.type (add_op b o) o) s os ≡ some r)
unfolding count_ops
count_ops-cons endorsed b slots o os r e = elim (Option-cases (endorse endorsed o.type slots o)) [
  | inl panics ↦ cc
  | inr (s, eq) ↦ (s, rw (count_ops, eq) at e)
]

count_ops-count :
    (endorsed : Op → Option (List Int64)) (t : OpType) (b : Block) (slots : ℕ) (os : List Op)
    (r : Block × ℕ)
    → is_counted t ≡ true
    → IsInt64 (count t b)
    → count_ops endorsed b slots os ≡ some r
    → count t r.0 ≡ add64 (count t b) (occurrences t os)
unfolding occurrences
count_ops-count endorsed t b slots [] r c h e =
    let same : b ≡ r.0 = nil_block endorsed b slots r e in rw (← same) (sym (keep (count t b) h))
count_ops-count endorsed t b slots (o ∷ os) r c h e =
    let (s, e') = count_ops-cons endorsed b slots o os r e in
    let next = count_op o.type (add_op b o) o in
    let added = add_op-count t b o in
    let one =
      count_op-count t o.type (add_op b o) o c (rw added h)
      ∙ ap (λ (x : Int64). add64 x (if index t == index o.type then 1 else 0)) added in
    count_ops-count endorsed t next s os r c (rw one (add64-IsInt64 _ _)) e'
    ∙ ap (λ (x : Int64). add64 x (occurrences t os)) one
    ∙ add64_assoc (count t b) _ (occurrences t os)

-- What the counter of a type starts with.
abbrev carried : OpType → Block → Int64
carried OpType.seed_nonce_revelation b = b.n_seed_nonce
carried _ b = 0

reset_totals-count :
    (t : OpType) (b : Block) → is_counted t ≡ true → count t (reset_totals b) ≡ carried t b
unfolding reset_totals
reset_totals-count OpType.transaction b c = refl
reset_totals-count t b c = ground arith

carried-IsInt64 : (t : OpType) (b : Block) → IsInt64 b.n_seed_nonce → IsInt64 (carried t b)
carried-IsInt64 OpType.seed_nonce_revelation b h = h
carried-IsInt64 t b h = omega arith

set_n_ops-count :
    (t : OpType) (b : Block) (n : Int64) → count t (record b { n_ops = n }) ≡ count t b
set_n_ops-count OpType.bake b n = refl
set_n_ops-count t b n = refl

count_rest-count :
    (t : OpType) (b : Block) (accounts delegates : List Account)
    → count t (count_rest b accounts delegates) ≡ count t b
unfolding count_rest
count_rest-count t b accounts delegates =
    let done : Block = record b { n_ops = length b.ops } in
    let flowed = count_flows done b.flows in
    count_delegates-count t (count_accounts flowed accounts) delegates
    ∙ count_accounts-count t flowed accounts
    ∙ count_flows-count t done b.flows
    ∙ set_n_ops-count t b (length b.ops)

proceed-eq-some :
    {A B : Type 0} (f : A → A) (o : Option (A × B)) (r : A × B)
    → proceed f o ≡ some r
    → (c : A × B) × (o ≡ some c) × (f c.0 ≡ r.0)
unfolding proceed
proceed-eq-some f none r e = cc
proceed-eq-some {A = A} {B = B} f (some c) r e =
    (c, refl, ap (λ (p : A × B). p.0) (some-injective (f c.0, c.1) r e))

-- What an update that does not panic returns.
pub update-eq-some :
    (endorsed : Op → Option (List Int64)) (b : Block) (accounts delegates : List Account)
    (r : Block × ℕ)
    → update endorsed b accounts delegates ≡ some r
    → (counted : Block × ℕ) × (count_ops endorsed (reset_totals b) 0 b.ops ≡ some counted)
      × (count_rest counted.0 accounts delegates ≡ r.0)
unfolding update
update-eq-some endorsed b accounts delegates r e =
    proceed-eq-some (λ counted. count_rest counted accounts delegates)
      (count_ops endorsed (reset_totals b) 0 b.ops) r e

-- Each counter of a block that is updated counts the operations of its type: those in the list of
-- the block's operations, and for seed nonces also those that the counter already held, since the
-- update does not reset it. The condition: that counter holds an int64 value.
pub update-count :
    (endorsed : Op → Option (List Int64)) (t : OpType) (b : Block)
    (accounts delegates : List Account) (r : Block × ℕ)
    → is_counted t ≡ true
    → IsInt64 b.n_seed_nonce
    → update endorsed b accounts delegates ≡ some r
    → count t r.0 ≡ add64 (carried t b) (occurrences t b.ops)
update-count endorsed t b accounts delegates r c h e =
    let (counted, eq, ended) = update-eq-some endorsed b accounts delegates r e in
    let start = reset_totals-count t b c in
    rw (← ended) (
      count_rest-count t counted.0 accounts delegates
      ∙ count_ops-count endorsed t (reset_totals b) 0 b.ops counted c
          (rw start (carried-IsInt64 t b h)) eq
      ∙ ap (λ (x : Int64). add64 x (occurrences t b.ops)) start)
