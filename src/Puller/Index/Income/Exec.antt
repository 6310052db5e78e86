-- ===== src/Puller/Index/Income/Exec.antt =====
-- puller/index/incomeindex.go: each loop of an update is the run of its turns.
use tezos_index.Common.{
  ℕ, Bool, List, [], ◌∷◌, ◌++◌, Option, none, some, ◌==◌, ◌≡◌, refl, sym, ◌∙◌, if◌then◌else◌, ltb,
  Bool-cases, inl, inr, not,
}
use tezos_index.Common.Int64.{Int64, lt64}
use tezos_index.Models.Flow.{Flow}
use tezos_index.Models.Op.{Op}
use tezos_index.Models.Right.{Right}
use tezos_index.Models.Income.{Column}
use tezos_index.Models.Block.{Block}
use tezos_index.Puller.Builder.{Outcome, ok, ◌>>=◌}
use tezos_index.Puller.Index.Income.Changes.{
  Change, flow_change, is_stolen_reward, op_change, nonce_change, is_burned_nonce,
}
use tezos_index.Puller.Index.Income.{
  Table, Cache, Booking, touch, each_right, is_behind, is_used, book_flow, book_flows, book_baker,
  book_ops, book_missed, book_nonces,
}
use tezos_index.Puller.Index.Income.Turns.{
  Turn, right_turns, flow_turn, flow_turns, baker_turns, op_turns, missed_turns, nonce_turns,
  block_turns, exec, exec-append, >>=-cong, >>=_ok,
}

module _ (t : Table) (cycle mul : Int64) where
  -- A loop that does what its turns do.
  abbrev Runs : (Cache → Outcome Cache) → List Turn → Type 0
  Runs step ts = (m : Cache) → step m ≡ exec t cycle mul ts m

  Runs-then :
      (f g : Cache → Outcome Cache) (ts us : List Turn)
      → Runs f ts
      → Runs g us
      → Runs (λ m. f m >>= g) (ts ++ us)
  Runs-then f g ts us p q m = rw (p m) (
      >>=-cong (exec t cycle mul ts m) g (exec t cycle mul us) q
      ∙ sym (exec-append t cycle mul ts us m))

  Runs-if :
      (b : Bool) (f g : Cache → Outcome Cache) (ts us : List Turn)
      → Runs f ts
      → Runs g us
      → Runs (λ m. if b then f m else g m) (if b then ts else us)
  Runs-if b f g ts us p q m = elim (Bool-cases b) [ inl e ↦ rw e (p m) | inr e ↦ rw e (q m) ]

  Runs-none : Runs (λ m. ok m) []
  unfolding exec
  Runs-none m = refl

  Runs-touch : (id : ℕ) (change : Change) → Runs (touch t cycle mul id change) ((id, change) ∷ [])
  unfolding exec
  Runs-touch id change m = sym (>>=_ok (touch t cycle mul id change m))

  each_right-exec :
      (skip : Right → Bool) (change : Change) (rs : List Right) (m : Cache)
      → each_right t cycle mul skip change rs m ≡ exec t cycle mul (right_turns skip change rs) m
  unfolding each_right right_turns exec
  each_right-exec skip change [] m = refl
  each_right-exec skip change (r ∷ rs) m = elim (Bool-cases (skip r)) [
    | inl e ↦ rw e (each_right-exec skip change rs m)
    | inr e ↦
        rw e
          (>>=-cong (touch t cycle mul r.account_id change m) _ _ (each_right-exec skip change rs))
  ]

  book_flow-exec :
      (b : Block) (reward : Int64) (baking : List Right) (f : Flow)
      → Runs (book_flow t cycle mul b reward baking f) (flow_turn b reward baking f)
  unfolding book_flow flow_turn
  book_flow-exec b reward baking f =
      let stolen = lt64 0 b.priority in
      let own = flow_change f.operation f.category stolen f.is_burned f.amount_in f.amount_out in
      let lost : Change = (Column.missed_baking_income, reward) ∷ [] in
      let loses = is_stolen_reward f.operation f.category stolen in
      let after : Cache → Outcome Cache =
        λ m. if loses then each_right t cycle mul is_behind lost baking m else ok m in
      let losers = right_turns is_behind lost baking in
      Runs-if (not f.is_frozen) (λ m. ok m) (λ m. touch t cycle mul f.account_id own m >>= after) []
        ((f.account_id, own) ∷ (if loses then losers else [])) Runs-none
        (Runs-then (touch t cycle mul f.account_id own) after ((f.account_id, own) ∷ [])
          (if loses then losers else []) (Runs-touch f.account_id own)
          (Runs-if loses (each_right t cycle mul is_behind lost baking) (λ m. ok m) losers []
            (each_right-exec is_behind lost baking) Runs-none))

  pub book_flows-exec :
      (b : Block) (reward : Int64) (baking : List Right) (fs : List Flow)
      → Runs (book_flows t cycle mul b reward baking fs) (flow_turns b reward baking fs)
  unfolding book_flows flow_turns
  book_flows-exec b reward baking [] = Runs-none
  book_flows-exec b reward baking (f ∷ fs) =
      Runs-then (book_flow t cycle mul b reward baking f)
        (book_flows t cycle mul b reward baking fs) (flow_turn b reward baking f)
        (flow_turns b reward baking fs) (book_flow-exec b reward baking f)
        (book_flows-exec b reward baking fs)

  pub book_baker-exec :
      (b : Block) (baking : List Right)
      → Runs (book_baker t cycle mul b baking) (baker_turns b baking)
  unfolding book_baker baker_turns
  book_baker-exec b baking =
      let stolen = lt64 0 b.priority in
      let own : Change =
        (Column.n_blocks_baked, 1) ∷ (if stolen then (Column.n_blocks_stolen, 1) ∷ [] else []) in
      let lost : Change = (Column.n_blocks_lost, 1) ∷ [] in
      let after : Cache → Outcome Cache =
        λ m. if stolen then each_right t cycle mul is_behind lost baking m else ok m in
      let losers = right_turns is_behind lost baking in
      Runs-if (ltb 0 b.baker_id) (λ m. touch t cycle mul b.baker_id own m >>= after) (λ m. ok m)
        ((b.baker_id, own) ∷ (if stolen then losers else [])) []
        (Runs-then (touch t cycle mul b.baker_id own) after ((b.baker_id, own) ∷ [])
          (if stolen then losers else []) (Runs-touch b.baker_id own)
          (Runs-if stolen (each_right t cycle mul is_behind lost baking) (λ m. ok m) losers []
            (each_right-exec is_behind lost baking) Runs-none))
        Runs-none

  Runs-some :
      (id : ℕ) (o : Option Change)
      → Runs
          (λ m. elim o [ none ↦ ok m | some change ↦ touch t cycle mul id change m ])
          (elim o [ none ↦ [] | some change ↦ (id, change) ∷ [] ])
  Runs-some id none = Runs-none
  Runs-some id (some change) = Runs-touch id change

  pub book_ops-exec : (os : List Op) → Runs (book_ops t cycle mul os) (op_turns os)
  unfolding book_ops op_turns
  book_ops-exec [] = Runs-none
  book_ops-exec (o ∷ os) =
      Runs-then
        (λ m. elim (op_change o.type o) [
          | none ↦ ok m
          | some change ↦ touch t cycle mul o.sender_id change m
        ])
        (book_ops t cycle mul os)
        (elim (op_change o.type o) [ none ↦ [] | some change ↦ (o.sender_id, change) ∷ [] ])
        (op_turns os) (Runs-some o.sender_id (op_change o.type o)) (book_ops-exec os)

  pub book_missed-exec :
      (b : Block) (parent : Option Block) (endorsing : List Right)
      → Runs (book_missed t cycle mul b parent endorsing) (missed_turns b parent endorsing)
  unfolding book_missed missed_turns
  book_missed-exec b none endorsing = Runs-none
  book_missed-exec b (some p) endorsing =
      let reward : Int64 =
        if lt64 b.cycle b.params.no_reward_cycles then 0 else b.params.endorsement_reward in
      let missed : Change =
        (Column.missed_endorsing_income, reward) ∷ (Column.n_slots_missed, 1) ∷ [] in
      Runs-if (p.slots_endorsed == 4294967295) (λ m. ok m)
        (each_right t cycle mul is_used missed endorsing) [] (right_turns is_used missed endorsing)
        Runs-none (each_right-exec is_used missed endorsing)

  pub book_nonces-exec :
      (b : Block) (fs : List Flow) → Runs (book_nonces t cycle mul b fs) (nonce_turns b fs)
  unfolding book_nonces nonce_turns
  book_nonces-exec b [] = Runs-none
  book_nonces-exec b (f ∷ fs) =
      let own = nonce_change b f.category f.amount_out in
      Runs-then (λ m. if is_burned_nonce f then touch t cycle mul f.account_id own m else ok m)
        (book_nonces t cycle mul b fs) (if is_burned_nonce f then (f.account_id, own) ∷ [] else [])
        (nonce_turns b fs)
        (Runs-if (is_burned_nonce f) (touch t cycle mul f.account_id own) (λ m. ok m)
          ((f.account_id, own) ∷ []) [] (Runs-touch f.account_id own) Runs-none)
        (book_nonces-exec b fs)

  pub block-exec :
      (k : Booking) (reward : Int64)
      → Runs
          (λ m. book_flows t cycle mul k.block reward k.baking k.block.flows m >>= λ m1.
            book_baker t cycle mul k.block k.baking m1 >>= λ m2.
            book_ops t cycle mul k.block.ops m2 >>= λ m3.
            book_missed t cycle mul k.block k.parent k.endorsing m3)
          (block_turns k reward)
  unfolding block_turns
  block-exec k reward =
      let b = k.block in
      let missed = book_missed t cycle mul b k.parent k.endorsing in
      let ops = book_ops t cycle mul b.ops in
      let baker = book_baker t cycle mul b k.baking in
      Runs-then (book_flows t cycle mul b reward k.baking b.flows)
        (λ m. baker m >>= λ m'. ops m' >>= missed) (flow_turns b reward k.baking b.flows) _
        (book_flows-exec b reward k.baking b.flows)
        (Runs-then baker (λ m. ops m >>= missed) (baker_turns b k.baking) _
          (book_baker-exec b k.baking)
          (Runs-then ops missed (op_turns b.ops) (missed_turns b k.parent k.endorsing)
            (book_ops-exec b.ops) (book_missed-exec b k.parent k.endorsing)))
