-- ===== src/Puller/Index/Income/Turns.antt =====
-- puller/index/incomeindex.go: a run of an update as the list of the rows that it changes, in the
-- order of the code.
use tezos_index.Common.{
  ℕ, Bool, not, List, [], ◌∷◌, ◌++◌, Option, none, some, ◌==◌, ◌≡◌, refl, sym, ◌∙◌, if◌then◌else◌,
  ltb,
}
use tezos_index.Common.Int64.{Int64, lt64}
use tezos_index.Models.Flow.{Flow}
use tezos_index.Models.Op.{Op}
use tezos_index.Models.Right.{Right}
use tezos_index.Models.Income.{Column}
use tezos_index.Models.Block.{Block}
use tezos_index.Puller.Builder.{Outcome, ok, err, panic, ◌>>=◌}
use tezos_index.Puller.Index.Income.Changes.{
  Change, flow_change, is_stolen_reward, op_change, nonce_change, is_burned_nonce,
}
use tezos_index.Puller.Index.Income.{Table, Cache, Booking, touch, is_behind, is_used}

-- A row, by its account, and what changes in it.
abbrev pub Turn : Type 0
Turn = ℕ × Change

unfoldable pub right_turns : (Right → Bool) → Change → List Right → List Turn
right_turns skip change [] = []
right_turns skip change (r ∷ rs) =
    if skip r
    then right_turns skip change rs
    else (r.account_id, change) ∷ right_turns skip change rs

unfoldable pub flow_turn : Block → Int64 → List Right → Flow → List Turn
unfolding right_turns flow_change is_stolen_reward
flow_turn b reward baking f =
    let stolen = lt64 0 b.priority in
    let lost = right_turns is_behind ((Column.missed_baking_income, reward) ∷ []) baking in
    if not f.is_frozen
    then []
    else (
      f.account_id,
      flow_change f.operation f.category stolen f.is_burned f.amount_in f.amount_out,
    )
      ∷ (if is_stolen_reward f.operation f.category stolen then lost else [])

unfoldable pub flow_turns : Block → Int64 → List Right → List Flow → List Turn
unfolding flow_turn
flow_turns b reward baking [] = []
flow_turns b reward baking (f ∷ fs) = flow_turn b reward baking f ++ flow_turns b reward baking fs

unfoldable pub baker_turns : Block → List Right → List Turn
unfolding right_turns
baker_turns b baking =
    let stolen = lt64 0 b.priority in
    if ltb 0 b.baker_id
    then (
      b.baker_id,
      (Column.n_blocks_baked, 1) ∷ (if stolen then (Column.n_blocks_stolen, 1) ∷ [] else []),
    )
      ∷ (if stolen then right_turns is_behind ((Column.n_blocks_lost, 1) ∷ []) baking else [])
    else []

unfoldable pub op_turns : List Op → List Turn
op_turns [] = []
op_turns (o ∷ os) =
    elim (op_change o.type o) [ none ↦ [] | some change ↦ (o.sender_id, change) ∷ [] ]
    ++ op_turns os

unfoldable pub missed_turns : Block → Option Block → List Right → List Turn
unfolding right_turns
missed_turns b none endorsing = []
missed_turns b (some p) endorsing =
    let reward : Int64 =
      if lt64 b.cycle b.params.no_reward_cycles then 0 else b.params.endorsement_reward in
    if p.slots_endorsed == 4294967295
    then []
    else right_turns is_used
        ((Column.missed_endorsing_income, reward) ∷ (Column.n_slots_missed, 1) ∷ []) endorsing

unfoldable pub block_turns : Booking → Int64 → List Turn
unfolding flow_turns baker_turns op_turns missed_turns
block_turns k reward =
    flow_turns k.block reward k.baking k.block.flows
    ++ (baker_turns k.block k.baking
        ++ (op_turns k.block.ops ++ missed_turns k.block k.parent k.endorsing))

unfoldable pub nonce_turns : Block → List Flow → List Turn
nonce_turns b [] = []
nonce_turns b (f ∷ fs) =
    (if is_burned_nonce f then (f.account_id, nonce_change b f.category f.amount_out) ∷ [] else [])
    ++ nonce_turns b fs

pub >>=-cong :
    {A B : Type 0} (o : Outcome A) (f g : A → Outcome B)
    → ((a : A) → f a ≡ g a)
    → (o >>= f) ≡ (o >>= g)
>>=-cong (ok a) f g h = h a
>>=-cong (err x) f g h = refl
>>=-cong panic f g h = refl

pub >>=_assoc :
    {A B C : Type 0} (o : Outcome A) (f : A → Outcome B) (g : B → Outcome C)
    → ((o >>= f) >>= g) ≡ (o >>= λ a. f a >>= g)
>>=_assoc (ok a) f g = refl
>>=_assoc (err x) f g = refl
>>=_assoc panic f g = refl

-- Four steps and what is done at their end, grouped from either side.
pub bind_regroup :
    {A : Type 0} (o : Outcome Cache) (f g h : Cache → Outcome Cache) (k : Cache → Outcome A)
    → (o >>= λ m. f m >>= λ m. g m >>= λ m. h m >>= k) ≡ ((o >>= λ m. f m >>= λ m. g m >>= h) >>= k)
bind_regroup o f g h k = sym (
    >>=_assoc o (λ m. f m >>= λ m. g m >>= h) k
    ∙ >>=-cong o _ _
        (λ m. >>=_assoc (f m) (λ m. g m >>= h) k ∙ >>=-cong (f m) _ _ (λ m. >>=_assoc (g m) h k)))

pub >>=_ok : {A : Type 0} (o : Outcome A) → (o >>= λ a. ok a) ≡ o
>>=_ok (ok a) = refl
>>=_ok (err x) = refl
>>=_ok panic = refl

module _ (t : Table) (cycle mul : Int64) where
  -- A list of turns is run from the left.
  unfoldable pub exec : List Turn → Cache → Outcome Cache
  exec [] m = ok m
  exec ((id, change) ∷ ts) m = touch t cycle mul id change m >>= exec ts

  pub exec-append : (ts us : List Turn) (m : Cache) → exec (ts ++ us) m ≡ (exec ts m >>= exec us)
  unfolding exec
  exec-append [] us m = refl
  exec-append ((id, change) ∷ ts) us m =
      >>=-cong (touch t cycle mul id change m) (exec (ts ++ us)) (λ m'. exec ts m' >>= exec us)
        (exec-append ts us)
      ∙ sym (>>=_assoc (touch t cycle mul id change m) (exec ts) (exec us))
