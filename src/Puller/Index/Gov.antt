-- ===== src/Puller/Index/Gov.antt =====
-- puller/index/govindex.go: elections and their votes, block by block.
pub mod Defs
pub mod Quorum
pub mod Elections
pub mod Ballots
pub mod Proposals
pub mod Winner
pub mod Bounds
pub mod Turnout
pub mod Counted
pub mod Updates
pub mod Disconnect
pub mod Periods
use tezos_index.Common.{
  ℕ, Bool, true, false, not, ◌&&◌, ◌||◌, List, [], ◌∷◌, Option, none, some, ◌==◌, if◌then◌else◌,
}
use tezos_index.Common.Int64.{Int64, lt64}
use tezos_index.Chain.Params.{is_vote_start, is_vote_end}
use tezos_index.Chain.Voting.{VotingPeriodKind}
use tezos_index.Puller.Index.Gov.Defs.{
  Gov, GovError, Ended, done, failed, panic, M, ◌>>=◌, ◌>>◌, return, rows_where,
}
use tezos_index.Puller.Index.Gov.Elections.{
  Poll, open_election, close_election, open_vote, close_vote,
}
use tezos_index.Puller.Index.Gov.Ballots.{Lookups, process_ballots}
use tezos_index.Puller.Index.Gov.Proposals.{process_proposals}

-- `firstVoteBlock`
abbrev pub first_vote_block : Int64
first_vote_block = 2

abbrev pub is_proposal : VotingPeriodKind → Bool
is_proposal VotingPeriodKind.proposal = true
is_proposal _ = false

-- A test of the parameters, which panics where a period has no blocks.
abbrev pub test : Option Bool → M Bool
test none g = panic
test (some b) g = done b g

-- The block is the first of a voting period, and the last of one.
unfoldable pub is_period_start : Poll → M Bool
unfolding is_vote_start
is_period_start p =
    if p.block.height == first_vote_block
    then return true
    else test (is_vote_start p.block.params p.block.height)

unfoldable pub is_period_end : Poll → M Bool
unfolding is_vote_end
is_period_end p =
    if lt64 first_vote_block p.block.height
    then test (is_vote_end p.block.params p.block.height)
    else return false

-- The first block of a period opens its vote, and the election before it.
unfoldable pub start_period : Poll → M (Unit {0})
unfolding open_election open_vote
start_period p = (if is_proposal p.kind then open_election p else return tt) >> open_vote p

-- The proposals or ballots of a block.
unfoldable pub process : Lookups → VotingPeriodKind → Poll → M (Unit {0})
unfolding process_proposals process_ballots
process k VotingPeriodKind.proposal p = process_proposals k p
process k VotingPeriodKind.testing_vote p = process_ballots k p
process k VotingPeriodKind.promotion_vote p = process_ballots k p
process k _ p = return tt

-- The last block of a period closes its vote; the election is closed where the vote failed, and
-- after every proposal period.
unfoldable pub end_period : Poll → M (Unit {0})
unfolding close_vote close_election
end_period p = close_vote p >>= λ success.
    if not success || is_proposal p.kind then close_election p else return tt

-- An error that ends the update without being reported; what was written stays.
abbrev pub silent : Ended (Unit {0}) → Ended (Unit {0})
silent (done u g) = done u g
silent (failed e g) = done tt g
silent panic = panic

abbrev pub dropped : M (Unit {0}) → M (Unit {0})
dropped m g = silent (m g)

-- `ConnectBlock`
unfoldable pub connect_block : Lookups → Poll → M (Unit {0})
unfolding is_period_start is_period_end start_period process end_period
connect_block k p = if lt64 p.block.height first_vote_block then return tt else (do
  first ← is_period_start p
  last ← is_period_end p
  if first then start_period p else return tt
  dropped (process k p.kind p >> (if last then end_period p else return tt)))

-- `DeleteBlock`, which `DisconnectBlock` calls.
unfoldable pub delete_block : Int64 → Gov → Gov
unfolding rows_where
delete_block height g = record g {
  ballots = rows_where (λ b. not (b.height == height)) g.ballots;
  proposals = rows_where (λ p. not (p.height == height)) g.proposals;
  votes = rows_where (λ v. not (v.start_height == height)) g.votes;
  elections = rows_where (λ e. not (e.start_height == height)) g.elections;
}
