-- ===== src/Puller/Index/Gov/Ballots.antt =====
-- puller/index/govindex.go: `processBallots`, which counts the ballots of a block.
use tezos_index.Common.{ℕ, Bool, true, false, List, [], ◌∷◌, ◌++◌, Option, ◌==◌, if◌then◌else◌}
use tezos_index.Common.Int64.{Int64, add64, sub64, mul64, div64}
use tezos_index.Chain.Address.{Address}
use tezos_index.Chain.OpType.{OpType}
use tezos_index.Chain.Voting.{BallotVote}
use tezos_index.Models.Op.{Op}
use tezos_index.Models.Account.{Account, rolls}
use tezos_index.Models.Gov.{Vote, Ballot, zero_ballot}
use tezos_index.Puller.Index.Gov.Defs.{
  Gov, GovError, panic, M, ◌>>=◌, ◌>>◌, return, write, need, update_rows, vote_by_height,
  create_ballot,
}
use tezos_index.Puller.Index.Gov.Quorum.{quorum_by_height}
use tezos_index.Puller.Index.Gov.Elections.{Poll}

-- What the index looks up elsewhere: the accounts of the builder by their address, the rolls of an
-- account in the snapshot of a height, the source and the vote of a ballot, and the source and the
-- hashes of a proposals operation, from the RPC data. `none` where something is missing, or where
-- the RPC data have another type.
pub record Lookups : Type 0 where
  pub account : Address → Option Account
  pub snapshot_rolls : ℕ → Int64 → Option Int64
  pub ballot : Op → Option (Address × BallotVote)
  pub proposals : Op → Option (Address × List (List ℕ))

-- The rolls of an account at the start of the vote; in the first cycle, where there is no snapshot,
-- its present ones.
unfoldable pub voter_rolls : Lookups → Poll → Vote → Account → M Int64
unfolding rolls
voter_rolls k p vote acc = do
  n ← need GovError.missing_rolls (k.snapshot_rolls acc.row_id (sub64 vote.start_height 1))
  return (if p.block.cycle == 0 then (if n == 0 then rolls acc p.block.params else n) else n)

-- `vote.YayRolls += rolls` and so on.
unfoldable pub count_side : BallotVote → Int64 → Vote → Vote
count_side BallotVote.yay n v = record v {
  yay_rolls = add64 v.yay_rolls n;
  yay_voters = add64 v.yay_voters 1;
}
count_side BallotVote.nay n v = record v {
  nay_rolls = add64 v.nay_rolls n;
  nay_voters = add64 v.nay_voters 1;
}
count_side BallotVote.pass n v = record v {
  pass_rolls = add64 v.pass_rolls n;
  pass_voters = add64 v.pass_voters 1;
}
count_side BallotVote.invalid n v = v

unfoldable pub count_turnout : Int64 → Vote → Vote
count_turnout n v = record v {
  turnout_rolls = add64 v.turnout_rolls n;
  turnout_voters = add64 v.turnout_voters 1;
}

abbrev pub is_ballot : OpType → Bool
is_ballot OpType.ballot = true
is_ballot _ = false

-- One operation of the loop.
unfoldable pub count_ballot : Lookups → Poll → Op → Vote × List Ballot → M (Vote × List Ballot)
unfolding voter_rolls count_side count_turnout
count_ballot k p o (vote, made) = do
  cast ← need GovError.missing_op (k.ballot o)
  acc ← need GovError.missing_account (k.account cast.0)
  n ← voter_rolls k p vote acc
  return (
    count_side cast.1 n (count_turnout n vote),
    made
        ++ (record zero_ballot {
          election_id = vote.election_id;
          proposal_id = vote.proposal_id;
          voting_period = vote.voting_period;
          voting_period_kind = vote.voting_period_kind;
          height = p.block.height;
          time = p.block.timestamp;
          source_id = acc.row_id;
          op_id = o.row_id;
          rolls = n;
          ballot = cast.1;
        }
            ∷ []),
  )

unfoldable pub count_all : Lookups → Poll → List Op → Vote × List Ballot → M (Vote × List Ballot)
unfolding count_ballot
count_all k p [] s = return s
count_all k p (o ∷ os) s =
    (if is_ballot o.type then count_ballot k p o s else return s) >>= λ s'. count_all k p os s'

-- The eligible rolls of a vote that was opened on genesis.
unfoldable pub with_eligible : Poll → Gov → Vote → Vote
unfolding quorum_by_height
with_eligible p g v =
    if v.eligible_rolls == 0
    then record v {
      eligible_rolls = p.chain.rolls;
      eligible_voters = p.chain.roll_owners;
      quorum_pct = (quorum_by_height p.block.params p.block.height g).0;
    }
    else v

unfoldable pub turnout_share : Vote → Vote
turnout_share v = record v { turnout_pct = div64 (mul64 v.turnout_rolls 10000) v.eligible_rolls }

-- The turnout as a share; where nobody is eligible, the division panics.
unfoldable pub finish_turnout : Poll → Vote → M Vote
unfolding with_eligible turnout_share
finish_turnout p vote g =
    let v = with_eligible p g vote in
    if v.eligible_rolls == 0 then panic else return (turnout_share v) g

-- `updateTheVot`: the columns of a count.
unfoldable pub update_the_vote : Vote → M (Unit {0})
unfolding update_rows
update_the_vote v = write λ g. record g {
  votes =
      update_rows (λ r. r.row_id == v.row_id)
        (λ r. record r {
          turnout_rolls = v.turnout_rolls;
          turnout_voters = v.turnout_voters;
          yay_rolls = v.yay_rolls;
          yay_voters = v.yay_voters;
          nay_rolls = v.nay_rolls;
          nay_voters = v.nay_voters;
          pass_rolls = v.pass_rolls;
          pass_voters = v.pass_voters;
          eligible_rolls = v.eligible_rolls;
          eligible_voters = v.eligible_voters;
          quorum_pct = v.quorum_pct;
          turnout_pct = v.turnout_pct;
        })
        g.votes;
}

unfoldable pub create_ballots : List Ballot → M (Unit {0})
unfolding create_ballot
create_ballots [] = return tt
create_ballots (b ∷ bs) = create_ballot b >> create_ballots bs

-- `processBallots`
unfoldable pub process_ballots : Lookups → Poll → M (Unit {0})
unfolding vote_by_height count_all finish_turnout update_the_vote create_ballots
process_ballots k p = if p.block.n_ballot == 0 then return tt else (do
  vote ← vote_by_height p.block.height
  counted ← count_all k p p.block.ops (vote, [])
  v ← finish_turnout p counted.0
  update_the_vote v
  create_ballots counted.1)
