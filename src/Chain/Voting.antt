-- ===== src/Chain/Voting.antt =====
-- chain/voting.go: voting periods and ballots.
use Prim.Native.String.{String}
use tezos_index.Common.{ℕ, [], ◌∷◌, ◌==◌, ◌≡◌, refl, if◌then◌else◌}
use tezos_index.Common.Texts.{read_table}

-- `VotingPeriodKind`, in the order of its constants.
pub data VotingPeriodKind : Type 0 where
  invalid proposal testing_vote testing promotion_vote adoption : VotingPeriodKind

-- The constant of a number; others are outside the type.
unfoldable pub period_kind : ℕ → VotingPeriodKind
period_kind n =
    if n == 1
    then VotingPeriodKind.proposal
    else if n == 2
    then VotingPeriodKind.testing_vote
    else if n == 3
    then VotingPeriodKind.testing
    else if n == 4
    then VotingPeriodKind.promotion_vote
    else if n == 5
    then VotingPeriodKind.adoption
    else VotingPeriodKind.invalid

-- `ToVotingPeriod`
unfoldable pub to_voting_period : ℕ → VotingPeriodKind
to_voting_period i =
    if i == 2
    then VotingPeriodKind.testing_vote
    else if i == 3
    then VotingPeriodKind.testing
    else if i == 4
    then VotingPeriodKind.promotion_vote
    else if i == 5
    then VotingPeriodKind.adoption
    else VotingPeriodKind.proposal

-- `VotingPeriodKind.Num`
unfoldable pub num : VotingPeriodKind → ℕ
num VotingPeriodKind.proposal = 1
num VotingPeriodKind.testing_vote = 2
num VotingPeriodKind.testing = 3
num VotingPeriodKind.promotion_vote = 4
num VotingPeriodKind.adoption = 5
num VotingPeriodKind.invalid = 1

-- `BallotVote`
pub data BallotVote : Type 0 where
  invalid yay nay pass : BallotVote

-- `ParseBallotVote`
unfoldable pub parse_ballot_vote : String → BallotVote
parse_ballot_vote =
    read_table (("yay", BallotVote.yay) ∷ ("nay", BallotVote.nay) ∷ ("pass", BallotVote.pass) ∷ [])
      BallotVote.invalid

-- `BallotVote.String`
unfoldable pub ballot_vote_string : BallotVote → String
ballot_vote_string BallotVote.yay = "yay"
ballot_vote_string BallotVote.nay = "nay"
ballot_vote_string BallotVote.pass = "pass"
ballot_vote_string BallotVote.invalid = ""

parse_ballot_vote-ballot_vote_string :
    (v : BallotVote) → parse_ballot_vote (ballot_vote_string v) ≡ v
unfolding parse_ballot_vote ballot_vote_string
parse_ballot_vote-ballot_vote_string BallotVote.yay = refl
parse_ballot_vote-ballot_vote_string v = refl
