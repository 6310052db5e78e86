-- ===== src/Models/Gov.antt =====
-- puller/models/gov.go: elections, proposals, votes and ballots. A time is a number of seconds.
use tezos_index.Common.{ℕ, Bool, false, List, []}
use tezos_index.Common.Int64.{Int64}
use tezos_index.Chain.Voting.{VotingPeriodKind, BallotVote}

-- `Election`: up to four voting periods.
pub record Election : Type 0 where
  pub row_id : ℕ
  pub proposal_id : ℕ
  pub num_periods : Int64
  pub num_proposals : Int64
  pub voting_period : Int64
  pub start_time : ℕ
  pub end_time : ℕ
  pub start_height : Int64
  pub end_height : Int64
  pub is_empty : Bool
  pub is_open : Bool
  pub is_failed : Bool
  pub no_quorum : Bool
  pub no_majority : Bool

-- `Proposal`
pub record Proposal : Type 0 where
  pub row_id : ℕ
  pub hash : List ℕ
  pub height : Int64
  pub time : ℕ
  pub source_id : ℕ
  pub op_id : ℕ
  pub election_id : ℕ
  pub voting_period : Int64
  pub rolls : Int64
  pub voters : Int64

-- `Vote`: the state of one voting period, or its result.
pub record Vote : Type 0 where
  pub row_id : ℕ
  pub election_id : ℕ
  pub proposal_id : ℕ
  pub voting_period : Int64
  pub voting_period_kind : VotingPeriodKind
  pub start_time : ℕ
  pub end_time : ℕ
  pub start_height : Int64
  pub end_height : Int64
  pub eligible_rolls : Int64
  pub eligible_voters : Int64
  pub quorum_pct : Int64
  pub quorum_rolls : Int64
  pub turnout_rolls : Int64
  pub turnout_voters : Int64
  pub turnout_pct : Int64
  pub turnout_ema : Int64
  pub yay_rolls : Int64
  pub yay_voters : Int64
  pub nay_rolls : Int64
  pub nay_voters : Int64
  pub pass_rolls : Int64
  pub pass_voters : Int64
  pub is_open : Bool
  pub is_failed : Bool
  pub is_draw : Bool
  pub no_proposal : Bool
  pub no_quorum : Bool
  pub no_majority : Bool

-- `Ballot`
pub record Ballot : Type 0 where
  pub row_id : ℕ
  pub election_id : ℕ
  pub proposal_id : ℕ
  pub voting_period : Int64
  pub voting_period_kind : VotingPeriodKind
  pub height : Int64
  pub time : ℕ
  pub source_id : ℕ
  pub op_id : ℕ
  pub rolls : Int64
  pub ballot : BallotVote

-- Rows with every field at its zero value, as a composite literal fills in what it leaves out.
abbrev pub zero_election : Election
zero_election = record {
  row_id = 0;
  proposal_id = 0;
  num_periods = 0;
  num_proposals = 0;
  voting_period = 0;
  start_time = 0;
  end_time = 0;
  start_height = 0;
  end_height = 0;
  is_empty = false;
  is_open = false;
  is_failed = false;
  no_quorum = false;
  no_majority = false;
}

abbrev pub zero_proposal : Proposal
zero_proposal = record {
  row_id = 0;
  hash = [];
  height = 0;
  time = 0;
  source_id = 0;
  op_id = 0;
  election_id = 0;
  voting_period = 0;
  rolls = 0;
  voters = 0;
}

abbrev pub zero_vote : Vote
zero_vote = record {
  row_id = 0;
  election_id = 0;
  proposal_id = 0;
  voting_period = 0;
  voting_period_kind = VotingPeriodKind.invalid;
  start_time = 0;
  end_time = 0;
  start_height = 0;
  end_height = 0;
  eligible_rolls = 0;
  eligible_voters = 0;
  quorum_pct = 0;
  quorum_rolls = 0;
  turnout_rolls = 0;
  turnout_voters = 0;
  turnout_pct = 0;
  turnout_ema = 0;
  yay_rolls = 0;
  yay_voters = 0;
  nay_rolls = 0;
  nay_voters = 0;
  pass_rolls = 0;
  pass_voters = 0;
  is_open = false;
  is_failed = false;
  is_draw = false;
  no_proposal = false;
  no_quorum = false;
  no_majority = false;
}

abbrev pub zero_ballot : Ballot
zero_ballot = record {
  row_id = 0;
  election_id = 0;
  proposal_id = 0;
  voting_period = 0;
  voting_period_kind = VotingPeriodKind.invalid;
  height = 0;
  time = 0;
  source_id = 0;
  op_id = 0;
  rolls = 0;
  ballot = BallotVote.invalid;
}
