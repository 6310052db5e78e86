-- ===== src/Puller/Index/Income/Even.antt =====
-- puller/index/incomeindex.go: what a block books to the total income is what it books to its
-- parts.
use tezos_index.Common.{
  ℕ, Bool, true, false, not, List, [], ◌∷◌, ◌++◌, Option, none, some, ◌==◌, ◌≡◌, refl, sym, ◌∙◌,
  arith, if◌then◌else◌, ltb, Bool-cases, inl, inr,
}
use tezos_index.Common.Int64.{
  Int64, IsInt64, add64, mul64, lt64, add64_comm, add64_assoc, add64-IsInt64,
}
use tezos_index.Chain.OpType.{OpType}
use tezos_index.Models.Flow.{Flow}
use tezos_index.Models.FlowType.{FlowCategory, FlowType}
use tezos_index.Models.Op.{Op}
use tezos_index.Models.Right.{Right}
use tezos_index.Models.Block.{Block}
use tezos_index.Models.Income.{Column}
use tezos_index.Models.Income.Laws.{total, same, add64-zero}
use tezos_index.Puller.Index.Income.Changes.{
  Change, fee_change, flow_change, is_stolen_reward, op_change,
}
use tezos_index.Puller.Index.Income.{Booking, is_behind, is_used}
use tezos_index.Puller.Index.Income.Turns.{
  Turn, right_turns, flow_turn, flow_turns, baker_turns, op_turns, missed_turns, block_turns,
}
use tezos_index.Puller.Index.Income.Settle.{posted}

-- The sum of two sums.
pub regroup :
    (a b c d e f : Int64)
    → add64 (add64 a (add64 b c)) (add64 d (add64 e f))
      ≡ add64 (add64 a d) (add64 (add64 b e) (add64 c f))
unfolding add64
regroup a b c d e f = omega arith

module _ (mul : Int64) where
  -- Assignments that raise the total by what they raise the parts.
  abbrev pub Even : Change → Type 0
  Even vs =
      total mul Column.total_income vs
      ≡ add64 (total mul Column.baking_income vs)
          (add64 (total mul Column.endorsing_income vs) (total mul Column.seed_income vs))

  abbrev EvenIf : Option Change → Type 0
  EvenIf none = Unit {0}
  EvenIf (some vs) = Even vs

  pub AllEven : List Turn → Type 0
  AllEven [] = Unit {0}
  AllEven ((id, vs) ∷ ts) = Even vs × AllEven ts

  paid : (x : Int64) → add64 x 0 ≡ add64 (add64 x 0) (add64 0 0)
  unfolding add64
  paid x = omega arith

  fee_change-Even : (c : FlowCategory) (i : Int64) → Even (fee_change c i)
  unfolding fee_change total add64
  fee_change-Even FlowCategory.fees i = refl
  fee_change-Even c i = refl

  flow_change-Even :
      (o : FlowType) (c : FlowCategory) (stolen burned : Bool) (i out : Int64)
      → Even (flow_change o c stolen burned i out)
  unfolding flow_change total add64
  flow_change-Even FlowType.baking FlowCategory.rewards true burned i out = paid (mul64 i mul)
  flow_change-Even FlowType.baking FlowCategory.rewards false burned i out = paid (mul64 i mul)
  flow_change-Even FlowType.endorsement FlowCategory.rewards stolen burned i out = omega arith
  flow_change-Even FlowType.nonce_revelation FlowCategory.rewards stolen true i out = refl
  flow_change-Even FlowType.nonce_revelation FlowCategory.rewards stolen false i out = omega arith
  flow_change-Even FlowType.denounciation FlowCategory.rewards stolen burned i out = refl
  flow_change-Even FlowType.baking c stolen burned i out = refl
  flow_change-Even FlowType.endorsement c stolen burned i out = refl
  flow_change-Even FlowType.nonce_revelation c stolen burned i out = refl
  flow_change-Even FlowType.denounciation c stolen burned i out = refl
  flow_change-Even o c stolen burned i out = fee_change-Even c i

  right_turns-AllEven :
      (skip : Right → Bool) (vs : Change)
      → Even vs
      → (rs : List Right) → AllEven (right_turns skip vs rs)
  unfolding right_turns AllEven
  right_turns-AllEven skip vs h [] = tt
  right_turns-AllEven skip vs h (r ∷ rs) =
      ground (arith, right_turns-AllEven skip vs h rs, Bool-cases (skip r))

  append-AllEven : (ts us : List Turn) → AllEven ts → AllEven us → AllEven (ts ++ us)
  unfolding AllEven
  append-AllEven [] us h k = k
  append-AllEven ((id, vs) ∷ ts) us h k = (h.0, append-AllEven ts us h.1 k)

  if-AllEven :
      (b : Bool) (ts us : List Turn) → AllEven ts → AllEven us → AllEven (if b then ts else us)
  if-AllEven true ts us h k = h
  if-AllEven false ts us h k = k

  flow_turn-AllEven :
      (b : Block) (reward : Int64) (baking : List Right) (f : Flow)
      → AllEven (flow_turn b reward baking f)
  unfolding flow_turn AllEven total add64
  flow_turn-AllEven b reward baking f = if-AllEven (not f.is_frozen) _ _ tt (
    flow_change-Even f.operation f.category (lt64 0 b.priority) f.is_burned f.amount_in
        f.amount_out,
    if-AllEven (is_stolen_reward f.operation f.category (lt64 0 b.priority)) _ _
        (right_turns-AllEven is_behind _ refl baking) tt,
  )

  flow_turns-AllEven :
      (b : Block) (reward : Int64) (baking : List Right) (fs : List Flow)
      → AllEven (flow_turns b reward baking fs)
  unfolding flow_turns AllEven
  flow_turns-AllEven b reward baking [] = tt
  flow_turns-AllEven b reward baking (f ∷ fs) =
      append-AllEven (flow_turn b reward baking f) (flow_turns b reward baking fs)
        (flow_turn-AllEven b reward baking f) (flow_turns-AllEven b reward baking fs)

  baker_turns-AllEven : (b : Block) (baking : List Right) → AllEven (baker_turns b baking)
  unfolding baker_turns AllEven total add64
  baker_turns-AllEven b baking =
      if-AllEven (ltb 0 b.baker_id) _ _
        (
          ground (arith, Bool-cases (lt64 0 b.priority)),
          if-AllEven (lt64 0 b.priority) _ _ (right_turns-AllEven is_behind _ refl baking) tt,
        )
        tt

  op_change-Even : (ty : OpType) (o : Op) → EvenIf (op_change ty o)
  unfolding op_change total add64
  op_change-Even OpType.endorsement o = refl
  op_change-Even OpType.seed_nonce_revelation o = refl
  op_change-Even OpType.double_baking_evidence o = refl
  op_change-Even OpType.double_endorsement_evidence o = refl
  op_change-Even ty o = tt

  some-AllEven :
      (id : ℕ) (o : Option Change)
      → EvenIf o
      → AllEven (elim o [ none ↦ [] | some change ↦ (id, change) ∷ [] ])
  unfolding AllEven
  some-AllEven id none h = tt
  some-AllEven id (some vs) h = (h, tt)

  op_turns-AllEven : (os : List Op) → AllEven (op_turns os)
  unfolding op_turns AllEven
  op_turns-AllEven [] = tt
  op_turns-AllEven (o ∷ os) =
      append-AllEven _ (op_turns os)
        (some-AllEven o.sender_id (op_change o.type o) (op_change-Even o.type o))
        (op_turns-AllEven os)

  missed_turns-AllEven :
      (b : Block) (parent : Option Block) (endorsing : List Right)
      → AllEven (missed_turns b parent endorsing)
  unfolding missed_turns AllEven total add64
  missed_turns-AllEven b none endorsing = tt
  missed_turns-AllEven b (some p) endorsing =
      if-AllEven (p.slots_endorsed == 4294967295) _ _ tt
        (right_turns-AllEven is_used _ refl endorsing)

  pub block_turns-AllEven : (k : Booking) (reward : Int64) → AllEven (block_turns k reward)
  unfolding block_turns
  block_turns-AllEven k reward =
      append-AllEven (flow_turns k.block reward k.baking k.block.flows) _
        (flow_turns-AllEven k.block reward k.baking k.block.flows)
        (append-AllEven (baker_turns k.block k.baking) _ (baker_turns-AllEven k.block k.baking) (
          append-AllEven (op_turns k.block.ops) _ (op_turns-AllEven k.block.ops)
            (missed_turns-AllEven k.block k.parent k.endorsing)))

  total-IsInt64 : (c : Column) (vs : Change) → IsInt64 (total mul c vs)
  unfolding total
  total-IsInt64 c [] = omega arith
  total-IsInt64 c ((d, v) ∷ vs) = elim (Bool-cases (same c d)) [
    | inl e ↦ rw e (add64-IsInt64 (mul64 v mul) (total mul c vs))
    | inr e ↦ rw e (total-IsInt64 c vs)
  ]

  total-append :
      (c : Column) (vs ws : Change)
      → total mul c (vs ++ ws) ≡ add64 (total mul c vs) (total mul c ws)
  unfolding total
  total-append c [] ws = sym (add64_comm 0 (total mul c ws) ∙ add64-zero _ (total-IsInt64 c ws))
  total-append c ((d, v) ∷ vs) ws = elim (Bool-cases (same c d)) [
    | inl e ↦
        rw (e, total-append c vs ws)
          (sym (add64_assoc (mul64 v mul) (total mul c vs) (total mul c ws)))
    | inr e ↦ rw e (total-append c vs ws)
  ]

  pub posted-Even : (id : ℕ) (ts : List Turn) → AllEven ts → Even (posted id ts)
  unfolding posted AllEven
  posted-Even id [] h = unfold total add64 in refl
  posted-Even id ((j, vs) ∷ ts) h = elim (Bool-cases (id == j)) [
    | inl e ↦
        rw
          (
            e,
            total-append Column.total_income vs (posted id ts),
            total-append Column.baking_income vs (posted id ts),
            total-append Column.endorsing_income vs (posted id ts),
            total-append Column.seed_income vs (posted id ts),
            h.0,
            posted-Even id ts h.1,
          )
          (regroup _ _ _ _ _ _)
    | inr e ↦ rw e (posted-Even id ts h.1)
  ]
