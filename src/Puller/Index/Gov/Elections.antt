-- ===== src/Puller/Index/Gov/Elections.antt =====
-- puller/index/govindex.go: how an election and its votes are opened and closed.
use tezos_index.Common.{
  ℕ, Bool, true, false, not, ◌&&◌, ◌||◌, List, [], ◌∷◌, none, some, ◌==◌, if◌then◌else◌,
}
use tezos_index.Common.Int64.{Int64, add64, sub64, mul64, div64, lt64}
use tezos_index.Chain.Params.{rem_checked}
use tezos_index.Chain.Voting.{VotingPeriodKind}
use tezos_index.Models.Chain.{Chain}
use tezos_index.Models.Gov.{Proposal, Vote, zero_election, zero_vote}
use tezos_index.Models.Block.{Block}
use tezos_index.Puller.Index.Gov.Defs.{
  Gov, GovError, panic, M, ◌>>=◌, ◌>>◌, return, read, guard, election_by_height, vote_by_height,
  proposals_by_election, update_election, update_this_vote, create_election, create_vote,
}
use tezos_index.Puller.Index.Gov.Quorum.{quorum_by_height}

-- What an update is called with: the block, the chain totals that it points to, and from its RPC
-- data the number and the kind of its voting period.
pub record Poll : Type 0 where
  pub block : Block
  pub chain : Chain
  pub voting_period : Int64
  pub kind : VotingPeriodKind

-- `time.Date(2050, 1, 1, 0, 0, 0, 0, time.UTC)`
abbrev pub far_future : ℕ
far_future = 2524608000

-- `openElection`
unfoldable pub open_election : Poll → M (Unit {0})
unfolding create_election
open_election p = create_election (record zero_election {
  num_periods = 1;
  voting_period = p.voting_period;
  start_time = p.block.timestamp;
  end_time = far_future;
  start_height = p.block.height;
  is_empty = true;
  is_open = true;
})

-- `closeElection`
unfoldable pub close_election : Poll → M (Unit {0})
unfolding election_by_height vote_by_height update_election
close_election p = do
  election ← election_by_height p.block.height
  guard election.is_open GovError.election_closed
  vote ← vote_by_height p.block.height
  guard (not vote.is_open) GovError.vote_not_closed
  update_election (record election {
    end_height = vote.end_height;
    end_time = vote.end_time;
    is_open = false;
    is_empty = election.num_proposals == 0 && vote.is_failed;
    is_failed = vote.is_failed;
    no_quorum = vote.no_quorum;
    no_majority = vote.no_majority;
  })

-- The number of periods that the election has come to.
unfoldable pub count_periods : VotingPeriodKind → Int64 → Int64
count_periods VotingPeriodKind.testing_vote n = 2
count_periods VotingPeriodKind.testing n = 3
count_periods VotingPeriodKind.promotion_vote n = 4
count_periods _ n = n

-- The quorum and the average turnout of a new vote; a kind without a case has none.
unfoldable pub quorum_for : VotingPeriodKind → Poll → Gov → Int64 × Int64
unfolding quorum_by_height
quorum_for VotingPeriodKind.proposal p g = (p.block.params.min_proposal_quorum, 0)
quorum_for VotingPeriodKind.testing_vote p g = quorum_by_height p.block.params p.block.height g
quorum_for VotingPeriodKind.promotion_vote p g = quorum_by_height p.block.params p.block.height g
quorum_for _ p g = (0, 0)

-- `openVote`. A period of no blocks panics.
unfoldable pub open_vote : Poll → M (Unit {0})
unfolding election_by_height count_periods quorum_for create_vote update_election
open_vote p = do
  election ← election_by_height p.block.height
  offset ← (λ g. elim (rem_checked p.block.height p.block.params.blocks_per_voting_period) [
    | none ↦ panic
    | some r ↦ return r g
  ])
  quorum ← read (quorum_for p.kind p)
  create_vote (record zero_vote {
    election_id = election.row_id;
    proposal_id = election.proposal_id;
    voting_period = p.voting_period;
    voting_period_kind = p.kind;
    start_time = p.block.timestamp;
    end_time = far_future;
    start_height = p.block.height;
    end_height = add64 (sub64 p.block.height offset) p.block.params.blocks_per_voting_period;
    is_open = true;
    eligible_rolls = p.chain.rolls;
    eligible_voters = p.chain.roll_owners;
    quorum_pct = quorum.0;
    turnout_ema = quorum.1;
    quorum_rolls = div64 (mul64 p.chain.rolls quorum.0) 10000;
  })
  update_election
      (record election { is_open = true; num_periods = count_periods p.kind election.num_periods })

-- The winner so far, its rolls, and whether another proposal has as many.
pub record Tally : Type 0 where
  pub winner : ℕ
  pub count : Int64
  pub is_draw : Bool

-- One proposal, and the loop that selects the winner.
unfoldable pub tally : Tally → Proposal → Tally
tally t v =
    if lt64 v.rolls t.count
    then t
    else if lt64 t.count v.rolls
    then record { winner = v.row_id; count = v.rolls; is_draw = false }
    else record t { is_draw = true }

unfoldable pub select_winner : Tally → List Proposal → Tally
unfolding tally
select_winner t [] = t
select_winner t (v ∷ vs) = select_winner (tally t v) vs

abbrev pub no_winner : Tally
no_winner = record { winner = 0; count = 0; is_draw = false }

-- The end of a proposal period where somebody took part: the winner goes to the election and to the
-- vote.
unfoldable pub close_proposals : Poll → Vote → M Vote
unfolding select_winner proposals_by_election election_by_height update_election
close_proposals p vote = do
  proposals ← proposals_by_election vote.election_id
  let t = select_winner no_winner proposals
  if t.is_draw then return (record vote { is_draw = true }) else (do
    election ← election_by_height p.block.height
    update_election (record election { proposal_id = t.winner })
    return (record vote { proposal_id = t.winner; is_draw = false }))

-- Quorum and super majority of a ballot.
unfoldable pub count_ballots : Vote → Vote
count_ballots v =
    let no_quorum = lt64 v.turnout_rolls v.quorum_rolls in
    let no_majority = lt64 v.yay_rolls (div64 (mul64 (add64 v.yay_rolls v.nay_rolls) 8) 10) in
    record v {
      no_quorum = no_quorum;
      no_majority = no_majority;
      is_failed = no_quorum || no_majority;
    }

-- The result of a vote by its kind.
unfoldable pub decide : Poll → VotingPeriodKind → Vote → M Vote
unfolding close_proposals
decide p VotingPeriodKind.proposal vote = do
  v ←
      if lt64 0 vote.turnout_rolls
      then close_proposals p vote
      else return (record vote { is_draw = false })
  let no_proposal = v.turnout_rolls == 0
  let no_quorum = lt64 0 p.block.params.min_proposal_quorum && lt64 v.turnout_rolls v.quorum_rolls
  return (record v {
    no_proposal = no_proposal;
    no_quorum = no_quorum;
    is_failed = no_proposal || (no_quorum || v.is_draw);
  })
decide p VotingPeriodKind.testing_vote vote = return (count_ballots vote)
decide p VotingPeriodKind.promotion_vote vote = return (count_ballots vote)
decide p _ vote = return vote

-- `closeVote`: whether the vote succeeded.
unfoldable pub close_vote : Poll → M Bool
unfolding vote_by_height decide update_this_vote
close_vote p = do
  vote ← vote_by_height p.block.height
  guard vote.is_open GovError.vote_closed
  v ← decide p vote.voting_period_kind vote
  update_this_vote (record v { end_time = p.block.timestamp; is_open = false })
  return (not v.is_failed)
