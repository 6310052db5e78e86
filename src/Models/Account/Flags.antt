-- ===== src/Models/Account/Flags.antt =====
-- puller/models/account.go: the flags that `UpdateBalance` sets, and what an error leaves behind.
use tezos_index.Common.{◌≡◌, ◌≢◌, ◌⊎◌, if◌then◌else◌, ◌↔◌, ◌<◌, ◌+◌, ◌^◌, arith, true, false, none}
use tezos_index.Common.{some, ltb}
use tezos_index.Common.Int64.{Int64, add64, sub64, lt64}
use tezos_index.Utils.MinMax.{max64}
use tezos_index.Models.FlowType.{FlowCategory, FlowType}
use tezos_index.Models.Flow.{Flow}
use tezos_index.Models.Account.Defs.{Account}
use tezos_index.Models.Account.Books.{sub_account}
use tezos_index.Models.Account.Update.{Update, update_balance, update_category, finish_update}
use tezos_index.Models.Account.Update.{cover_outflow, move_spendable, Movement, movement}

-- An update that returns an error. Outside the spendable balance that happens exactly where the
-- sub-account of the flow is smaller than the out-flow, and the account is only marked dirty.
pub update_balance-error :
    (a : Account) (f : Flow)
    → f.category ≢ FlowCategory.balance
    → f.category ≢ FlowCategory.invalid
    → ((update_balance a f).1 ≢ none ↔ lt64 (sub_account f.category a) f.amount_out ≡ true)
      × ((update_balance a f).1 ≢ none → (update_balance a f).0 ≡ record a { is_dirty = true })
unfolding update_balance
update_balance-error a f b i = errors f.category b i
  where
    errors :
        (c : FlowCategory)
        → c ≢ FlowCategory.balance
        → c ≢ FlowCategory.invalid
        → let u = finish_update f (update_category c (record a { is_dirty = true }) f) in
          (u.1 ≢ none ↔ lt64 (sub_account c a) f.amount_out ≡ true)
          × (u.1 ≢ none → u.0 ≡ record a { is_dirty = true })
    errors FlowCategory.rewards b i = ground arith
    errors c b i = ground arith

-- The flows that pay out what is unclaimed.
abbrev pub IsClaim : FlowType → Type 0
IsClaim t = (t ≡ FlowType.activation) ⊎ (t ≡ FlowType.vest)

movement-claim_iff : (t : FlowType) → (movement t ≡ Movement.claim) ↔ IsClaim t
movement-claim_iff FlowType.activation = ground arith
movement-claim_iff t = ground arith

-- The move of a claim from the unclaimed to the spendable balance, which makes no coin.
claim_sum : (m u i o : Int64) → add64 (add64 m (sub64 i o)) (sub64 u i) ≡ sub64 (add64 m u) o
unfolding add64 sub64
claim_sum m u i o = omega arith

-- A flow of the spendable balance is refused exactly where it is an activation or a vesting of more
-- than is unclaimed. The account is not left alone then: the balance has been raised to the out-flow
-- where it was smaller, a fee or a burn has been counted, and the account is marked dirty; no other
-- field changes. A flow that is not refused leaves the larger of the old balance and the out-flow,
-- plus the in-flow, less the out-flow, to spend; if it is a claim, the in-flow comes from what is
-- unclaimed, so that both balances together change by the raise and the out-flow only, in int64
-- arithmetic.
pub update_balance-claim_error :
    (a : Account) (f : Flow)
    → f.category ≡ FlowCategory.balance
    → let after = (update_balance a f).0 in
      let covered = max64 a.spendable_balance f.amount_out in
      ((update_balance a f).1 ≢ none
        ↔ (IsClaim f.operation × (lt64 a.unclaimed_balance f.amount_in ≡ true)))
      × ((update_balance a f).1 ≢ none
          → after ≡ record a {
            is_dirty = true;
            spendable_balance = covered;
            total_fees_paid =
                if f.is_fee then add64 a.total_fees_paid f.amount_out else a.total_fees_paid;
            total_burned =
                if f.is_burned then add64 a.total_burned f.amount_out else a.total_burned;
          })
      × ((update_balance a f).1 ≡ none
          → (after.spendable_balance ≡ add64 covered (sub64 f.amount_in f.amount_out))
            × (IsClaim f.operation
                → add64 after.spendable_balance after.unclaimed_balance
                  ≡ sub64 (add64 covered a.unclaimed_balance) f.amount_out))
unfolding update_balance max64 cover_outflow move_spendable finish_update
update_balance-claim_error a f c =
    simp c (paid (movement f.operation) (movement-claim_iff f.operation))
  where
    paid :
        (m : Movement)
        → (m ≡ Movement.claim) ↔ IsClaim f.operation
        → let u =
            finish_update f (move_spendable m (cover_outflow (record a { is_dirty = true }) f) f) in
          let covered = max64 a.spendable_balance f.amount_out in
          (u.1 ≢ none ↔ (IsClaim f.operation × (lt64 a.unclaimed_balance f.amount_in ≡ true)))
          × (u.1 ≢ none
              → u.0 ≡ record a {
                is_dirty = true;
                spendable_balance = covered;
                total_fees_paid =
                    if f.is_fee then add64 a.total_fees_paid f.amount_out else a.total_fees_paid;
                total_burned =
                    if f.is_burned then add64 a.total_burned f.amount_out else a.total_burned;
              })
          × (u.1 ≡ none
              → (u.0.spendable_balance ≡ add64 covered (sub64 f.amount_in f.amount_out))
                × (IsClaim f.operation
                    → add64 u.0.spendable_balance u.0.unclaimed_balance
                      ≡ sub64 (add64 covered a.unclaimed_balance) f.amount_out))
    paid Movement.claim h = ground (
      arith,
      claim_sum (max64 a.spendable_balance f.amount_out) a.unclaimed_balance f.amount_in
          f.amount_out,
    )
    paid m h = ground arith

exact_funds :
    (d e r s u : Int64)
    → d + e + r + s + u < 2 ^ 63
    → lt64 0 (add64 (add64 (add64 (add64 d e) r) s) u) ≡ ltb 0 (d + e + r + s + u)
unfolding add64 lt64
exact_funds d e r s u h = ground arith

-- After a successful update the account is flagged as funded exactly where its frozen, spendable
-- and unclaimed amounts are not all zero (their sum below 2 ^ 63), and an account without funds
-- is not revealed and has no token generations.
pub update_balance-is_funded :
    (a : Account) (f : Flow)
    → (update_balance a f).1 ≡ none
    → let b = (update_balance a f).0 in
      let funds =
        b.frozen_deposits + b.frozen_fees + b.frozen_rewards + b.spendable_balance
        + b.unclaimed_balance in
      funds < 2 ^ 63
      → ((b.is_funded ≡ true) ↔ (0 < funds))
        × (b.is_funded ≡ false
            → (b.is_revealed ≡ false) × (b.token_gen_min ≡ 0) × (b.token_gen_max ≡ 0))
unfolding update_balance
update_balance-is_funded a f done bound =
    funded (update_category f.category (record a { is_dirty = true }) f) done bound
  where
    funded :
        (u : Update)
        → (finish_update f u).1 ≡ none
        → let b = (finish_update f u).0 in
          let funds =
            b.frozen_deposits + b.frozen_fees + b.frozen_rewards + b.spendable_balance
            + b.unclaimed_balance in
          funds < 2 ^ 63
          → ((b.is_funded ≡ true) ↔ (0 < funds))
            × (b.is_funded ≡ false
                → (b.is_revealed ≡ false) × (b.token_gen_min ≡ 0) × (b.token_gen_max ≡ 0))
    funded (b, none) done bound = ground (
      arith,
      exact_funds b.frozen_deposits b.frozen_fees b.frozen_rewards b.spendable_balance
          b.unclaimed_balance,
    )
    funded (b, some e) done bound = cc
