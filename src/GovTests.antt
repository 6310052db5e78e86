-- ===== src/GovTests.antt =====
-- puller/index/govindex.go on the last block of a promotion vote.
use tezos_index.Common.{
  ℕ, true, false, not, ◌≤◌, ◌<◌, ◌≡◌, ◌⊎◌, refl, subst, List, [], ◌∷◌, ◌++◌, none, some, ◌==◌,
  arith, if◌then◌else◌,
}
use tezos_index.Common.Int64.{add64, sub64, mul64, div64, rem64, lt64}
use tezos_index.Chain.Address.{Address, AddressType}
use tezos_index.Chain.OpType.{OpType}
use tezos_index.Chain.Params.{Params, new_params, is_vote_start, is_vote_end}
use tezos_index.Chain.Voting.{VotingPeriodKind, BallotVote}
use tezos_index.Models.Account.{zero_account}
use tezos_index.Models.Op.{Op}
use tezos_index.Models.Block.{Block, zero_block}
use tezos_index.Models.Gov.{
  Election, Proposal, Vote, Ballot, zero_election, zero_proposal, zero_vote,
}
use tezos_index.Puller.Index.Gov.Defs.{
  Gov, Ended, done, failed, panic, rows_where, update_rows, vote_by_height, election_by_height,
}
use tezos_index.Puller.Index.Gov.Quorum.{quorum_by_height, next_quorum}
use tezos_index.Puller.Index.Gov.Elections.{Poll, select_winner, no_winner}
use tezos_index.Puller.Index.Gov.Ballots.{Lookups, process_ballots}
use tezos_index.Puller.Index.Gov.Winner.{AllUpTo, Holder, tops, select_winner-IsUnique}
use tezos_index.Puller.Index.Gov.Bounds.{
  IsShare, AllShares, first_poll, quorum_by_height-first_poll, quorum_by_height_bounds,
}
use tezos_index.Puller.Index.Gov.Turnout.{
  Side, IsCounted, Counts, done_value, vote_rolls, vote_voters,
}
use tezos_index.Puller.Index.Gov.Counted.{counted_row, numbered, process_ballots-Counts}
use tezos_index.Puller.Index.Gov.Periods.{ballots_fail, end_period-Closed, connect_block-closes}
use tezos_index.Puller.Index.Gov.{end_period, connect_block, process}
use tezos_index.TotalsTests.{transfer, no_chain}

-- Voting periods of 8 blocks, in protocol 6.
abbrev gov_params : Params
unfolding new_params
gov_params = record new_params {
  version = 6;
  blocks_per_voting_period = 8;
  quorum_min = 2000;
  quorum_max = 7000;
}

-- Two proposals with 4 rolls would be a draw.
abbrev candidates : List Proposal
candidates =
    record zero_proposal { row_id = 1; rolls = 4 }
    ∷ record zero_proposal { row_id = 2; rolls = 9 }
    ∷ record zero_proposal { row_id = 3; rolls = 4 }
    ∷ []

abbrev first_candidate : ℕ
unfolding select_winner
first_candidate = (select_winner no_winner candidates).winner

second_wins : first_candidate ≡ 2
unfolding first_candidate select_winner lt64
second_wins = refl

select_winner-IsUnique_example :
    AllUpTo (select_winner no_winner candidates).count candidates
    × ((select_winner no_winner candidates).is_draw ≡ false
        → ((candidates ≡ []) × ((select_winner no_winner candidates).winner ≡ 0))
          ⊎ ((tops (select_winner no_winner candidates).count candidates ≡ 1)
              × Holder
                  (select_winner no_winner candidates).winner
                  (select_winner no_winner candidates).count
                  candidates))
    × ((select_winner no_winner candidates).is_draw ≡ true
        → ((select_winner no_winner candidates).count ≡ 0)
          ⊎ (1 < tops (select_winner no_winner candidates).count candidates))
select_winner-IsUnique_example = select_winner-IsUnique candidates (omega arith)

-- A testing vote, and the promotion vote of the same election.
abbrev tested : Vote
tested = record zero_vote {
  row_id = 2;
  election_id = 1;
  voting_period_kind = VotingPeriodKind.testing_vote;
  start_height = 25;
  quorum_pct = 7000;
  turnout_pct = 9000;
  turnout_ema = 7000;
}

abbrev promoted : Vote
promoted = record zero_vote {
  row_id = 3;
  election_id = 1;
  voting_period_kind = VotingPeriodKind.promotion_vote;
  start_height = 41;
  is_open = true;
  eligible_rolls = 20;
  quorum_rolls = 5;
  turnout_rolls = 10;
  turnout_voters = 2;
  yay_rolls = 9;
  yay_voters = 1;
  nay_rolls = 1;
  nay_voters = 1;
}

abbrev running : Election
running = record zero_election { row_id = 1; start_height = 17; is_open = true }

abbrev tables : Gov
tables = record {
  elections = running ∷ [];
  proposals = [];
  votes = tested ∷ promoted ∷ [];
  ballots = [];
  next_election = 2;
  next_proposal = 1;
  next_vote = 4;
  next_ballot = 1;
}

quorum_by_height-first_poll_example :
    quorum_by_height gov_params 57 tables
    ≡ next_quorum gov_params (first_poll (rows_where (λ v. lt64 v.start_height 57) tables.votes))
quorum_by_height-first_poll_example = quorum_by_height-first_poll gov_params 57 tables

tables-AllShares : AllShares tables.votes
tables-AllShares = (
  record { quorum = omega arith; turnout = omega arith; ema = omega arith },
  (record { quorum = omega arith; turnout = omega arith; ema = omega arith }, tt),
)

quorum_by_height_bounds_example :
    (gov_params.quorum_min ≤ (quorum_by_height gov_params 57 tables).0)
    × ((quorum_by_height gov_params 57 tables).0 ≤ gov_params.quorum_max)
    × IsShare (quorum_by_height gov_params 57 tables).1
unfolding gov_params lt64
quorum_by_height_bounds_example =
    quorum_by_height_bounds gov_params 57 tables refl
      (record { ordered = omega arith; share = omega arith }) tables-AllShares

-- A baker with 6 rolls votes nay in the last block of the period.
abbrev nay_op : Op
nay_op = record transfer { row_id = 70; type = OpType.ballot }

abbrev last_block : Block
last_block = record (zero_block gov_params) {
  height = 48;
  cycle = 6;
  timestamp = 1600000000;
  n_ballot = 1;
  ops = transfer ∷ nay_op ∷ [];
}

abbrev poll : Poll
poll = record {
  block = last_block;
  chain = record no_chain { rolls = 20; roll_owners = 3 };
  voting_period = 5;
  kind = VotingPeriodKind.promotion_vote;
}

abbrev nobody : Address
nobody = record { type = AddressType.ed25519; hash = [] }

abbrev lookups : Lookups
lookups = record {
  account = λ a. some (record zero_account { row_id = 4 });
  snapshot_rolls = λ id height. if height == 40 then some 6 else none;
  ballot = λ o. some (nobody, BallotVote.nay);
  proposals = λ o. none;
}

abbrev state_of : Ended (Unit {0}) → Gov
state_of (done u g) = g
state_of (failed e g) = g
state_of panic = tables

abbrev balloted : Gov
unfolding process_ballots
balloted = state_of (process_ballots lookups poll tables)

abbrev nayed : Vote
nayed = record promoted {
  turnout_rolls = 16;
  turnout_voters = 3;
  nay_rolls = 7;
  nay_voters = 2;
  turnout_pct = 8000;
}

promoted-IsCounted : (v : Vote) → vote_by_height 48 tables ≡ done v tables → IsCounted v
unfolding vote_by_height lt64 vote_rolls vote_voters
promoted-IsCounted v e = subst IsCounted (done_value e) counted
  where
    counted : IsCounted promoted
    counted Side.yays = (omega arith, omega arith)
    counted s = (omega arith, omega arith)

process_ballots-Counts_example :
    (v v' : Vote) × (new : List Ballot) × (vote_by_height 48 tables ≡ done v tables)
    × Counts v new v'
    × (balloted.ballots ≡ tables.ballots ++ numbered tables.next_ballot new)
    × (balloted.votes ≡ update_rows (λ r. r.row_id == v.row_id) (counted_row v') tables.votes)
unfolding balloted process_ballots lt64 sub64
process_ballots-Counts_example =
    process_ballots-Counts lookups poll tables balloted promoted-IsCounted refl refl

end_period-Closed_example :
    (g' : Gov) × (end_period poll balloted ≡ done tt g')
    × (v' : Vote) × (e' : Election) × (vote_by_height 48 g' ≡ done v' g')
    × (v'.is_open ≡ false)
    × (v'.is_failed ≡ ballots_fail nayed)
    × (election_by_height 48 g' ≡ done e' g')
    × (e'.is_open ≡ not (ballots_fail nayed))
unfolding vote_by_height balloted lt64 sub64 add64 div64 mul64 election_by_height
end_period-Closed_example =
    end_period-Closed poll balloted nayed refl refl refl running refl refl refl

connect_block-closes_example :
    (g' : Gov) × (connect_block lookups poll tables ≡ done tt g')
    × (v' : Vote) × (vote_by_height 48 g' ≡ done v' g')
    × (v'.is_open ≡ false)
    × (v'.is_failed ≡ ballots_fail nayed)
unfolding vote_by_height balloted lt64 sub64 add64 div64 mul64 is_vote_start gov_params rem64
    is_vote_end process
connect_block-closes_example =
    connect_block-closes poll balloted nayed refl refl refl lookups tables refl refl refl refl refl
