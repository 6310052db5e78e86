-- ===== src/Puller/Flows/Inversion.antt =====
-- puller/flow.go: the parts of the flows of a transaction or an origination that succeeds.
use tezos_index.Common.{◌≡◌, arith, true, false, List, [], ◌++◌, Option}
use mathlib.Core.Path.{subst}
use tezos_index.Common.Int64.{Int64, IsInt64, add64}
use tezos_index.Rpc.Balance.{BalanceUpdates}
use tezos_index.Models.FlowType.{FlowType}
use tezos_index.Models.Flow.{Flow}
use tezos_index.Models.Account.{Account}
use tezos_index.Models.Block.{Block}
use tezos_index.Puller.Builder.{Builder, ok, commit}
use tezos_index.Puller.Builder.Laws.{>>=-eq-ok, commit-eq-ok}
use tezos_index.Puller.Flows.Parts.{fee_loop, moved_loop}
use tezos_index.Puller.Flows.Transfer.{transaction_flows, new_transaction_flows}
use tezos_index.Puller.Flows.Originate.{origination_flows, new_origination_flows}
use tezos_index.Puller.Flows.Sums.{credited, debited, totals-IsInt64}
use tezos_index.Puller.Flows.Loops.{moved_loop-eq}

zero_left : (x : Int64) → IsInt64 x → add64 0 x ≡ x
unfolding add64
zero_left x h = omega arith

moved_loop-sums : (us : BalanceUpdates) → moved_loop 0 0 us ≡ (credited us, debited us)
moved_loop-sums us = ground (
  arith,
  moved_loop-eq 0 0 us,
  zero_left (credited us),
  zero_left (debited us),
  totals-IsInt64 us,
)

-- The flows of the fees, and those of the transfer.
pub record TransactionParts (b b' : Builder) (src : Account) (dst srcdlg dstdlg : Option Account)
    (feeupd txupd : BalanceUpdates) (block : Block) (flows : List Flow) : Type 0 where
  pub first : List Flow
  pub fees : Int64
  pub rest : List Flow
  pub paid_eq : fee_loop b.block src FlowType.transaction true [] 0 feeupd ≡ ok (first, fees)
  pub rest_eq :
      transaction_flows b.block block src dst srcdlg dstdlg fees (credited txupd) (debited txupd)
      ≡ ok rest
  pub made : first ++ rest ≡ flows
  pub kept : b'.block.flows ≡ b.block.flows ++ flows

pub new_transaction_flows-parts :
    (b b' : Builder) (src : Account) (dst srcdlg dstdlg : Option Account)
    (feeupd txupd : BalanceUpdates) (block : Block) (flows : List Flow)
    → new_transaction_flows b src dst srcdlg dstdlg feeupd txupd block ≡ ok (b', flows)
    → TransactionParts b b' src dst srcdlg dstdlg feeupd txupd block flows
unfolding new_transaction_flows
new_transaction_flows-parts b b' src dst srcdlg dstdlg feeupd txupd block flows e =
    let sums = moved_loop 0 0 txupd in
    let (paid, m, e') =
      >>=-eq-ok (fee_loop b.block src FlowType.transaction true [] 0 feeupd) _ (b', flows) e in
    let (rest, m', e'') =
      >>=-eq-ok (transaction_flows b.block block src dst srcdlg dstdlg paid.1 sums.0 sums.1)
        (λ more. commit b (paid.0 ++ more)) (b', flows) e' in
    let (made, kept) = commit-eq-ok b b' (paid.0 ++ rest) flows e'' in
    record {
      first = paid.0;
      fees = paid.1;
      rest = rest;
      paid_eq = m;
      rest_eq =
          subst
            (λ (s : Int64 × Int64).
              transaction_flows b.block block src dst srcdlg dstdlg paid.1 s.0 s.1 ≡ ok rest)
            (moved_loop-sums txupd) m';
      made = made;
      kept = kept;
    }

pub record OriginationParts (b b' : Builder) (src : Account) (dst srcdlg newdlg : Option Account)
    (feeupd origupd : BalanceUpdates) (flows : List Flow) : Type 0 where
  pub first : List Flow
  pub fees : Int64
  pub paid_eq : fee_loop b.block src FlowType.origination false [] 0 feeupd ≡ ok (first, fees)
  pub made :
      first
        ++ origination_flows b.block src dst srcdlg newdlg fees (credited origupd) (debited origupd)
      ≡ flows
  pub kept : b'.block.flows ≡ b.block.flows ++ flows

pub new_origination_flows-parts :
    (b b' : Builder) (src : Account) (dst srcdlg newdlg : Option Account)
    (feeupd origupd : BalanceUpdates) (flows : List Flow)
    → new_origination_flows b src dst srcdlg newdlg feeupd origupd ≡ ok (b', flows)
    → OriginationParts b b' src dst srcdlg newdlg feeupd origupd flows
unfolding new_origination_flows
new_origination_flows-parts b b' src dst srcdlg newdlg feeupd origupd flows e =
    let sums = moved_loop 0 0 origupd in
    let (paid, m, e') =
      >>=-eq-ok (fee_loop b.block src FlowType.origination false [] 0 feeupd) _ (b', flows) e in
    let (made, kept) =
      commit-eq-ok b b'
        (paid.0 ++ origination_flows b.block src dst srcdlg newdlg paid.1 sums.0 sums.1) flows e' in
    record {
      first = paid.0;
      fees = paid.1;
      paid_eq = m;
      made =
          subst
            (λ (s : Int64 × Int64).
              paid.0 ++ origination_flows b.block src dst srcdlg newdlg paid.1 s.0 s.1 ≡ flows)
            (moved_loop-sums origupd) made;
      kept = kept;
    }
