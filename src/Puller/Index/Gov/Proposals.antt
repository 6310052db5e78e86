-- ===== src/Puller/Index/Gov/Proposals.antt =====
-- puller/index/govindex.go: `processProposals`, which counts the proposals of a block.
use tezos_index.Common.{
  ℕ, Bool, true, false, ◌&&◌, List, [], ◌∷◌, ◌++◌, Option, none, some, ◌==◌, if◌then◌else◌,
  same_bytes, length,
}
use tezos_index.Common.Int64.{Int64, add64}
use tezos_index.Chain.OpType.{OpType}
use tezos_index.Chain.Voting.{BallotVote}
use tezos_index.Models.Op.{Op}
use tezos_index.Models.Account.{Account}
use tezos_index.Models.Gov.{Proposal, Vote, Ballot, zero_proposal, zero_ballot}
use tezos_index.Puller.Index.Gov.Defs.{
  GovError, M, ◌>>=◌, ◌>>◌, return, read, write, need, guard, update_rows, election_by_height,
  vote_by_height, proposals_by_election, update_election, update_proposal, create_proposal,
}
use tezos_index.Puller.Index.Gov.Elections.{Poll}
use tezos_index.Puller.Index.Gov.Ballots.{
  Lookups, voter_rolls, count_turnout, finish_turnout, create_ballots,
}

-- `proposalMap`: the proposals of the election by their hash.
abbrev pub ProposalMap : Type 0
ProposalMap = List (List ℕ × Proposal)

unfoldable pub find_known : List ℕ → ProposalMap → Option Proposal
find_known h [] = none
find_known h ((k, p) ∷ ps) = if same_bytes k h then some p else find_known h ps

unfoldable pub put_known : List ℕ → Proposal → ProposalMap → ProposalMap
put_known h p [] = (h, p) ∷ []
put_known h p ((k, q) ∷ ps) = if same_bytes k h then (h, p) ∷ ps else (k, q) ∷ put_known h p ps

unfoldable pub put_all : List Proposal → ProposalMap → ProposalMap
unfolding put_known
put_all [] known = known
put_all (p ∷ ps) known = put_all ps (put_known p.hash p known)

abbrev pub is_proposals : OpType → Bool
is_proposals OpType.proposals = true
is_proposals _ = false

-- The source of an operation and the hashes that it proposes.
unfoldable pub sent : Lookups → Op → M (Account × List (List ℕ))
sent k o = do
  content ← need GovError.missing_op (k.proposals o)
  acc ← need GovError.missing_account (k.account content.0)
  return (acc, content.1)

-- The first loop: rows for the hashes that the election does not know. The map is not changed
-- meanwhile.
unfoldable pub unknown_of : Poll → Vote → Account → Op → ProposalMap → List (List ℕ) → List Proposal
unfolding find_known
unknown_of p vote acc o known [] = []
unknown_of p vote acc o known (h ∷ hs) =
    let rest = unknown_of p vote acc o known hs in
    elim (find_known h known) [
      | some q ↦ rest
      | none ↦
          record zero_proposal {
            hash = h;
            height = p.block.height;
            time = p.block.timestamp;
            source_id = acc.row_id;
            op_id = o.row_id;
            election_id = vote.election_id;
            voting_period = vote.voting_period;
          }
          ∷ rest
    ]

unfoldable pub find_unknown : Lookups → Poll → Vote → ProposalMap → List Op → M (List Proposal)
unfolding sent unknown_of
find_unknown k p vote known [] = return []
find_unknown k p vote known (o ∷ os) =
    (if is_proposals o.type
      then (sent k o >>= λ s. return (unknown_of p vote s.0 o known s.1))
      else return [])
    >>= λ here. find_unknown k p vote known os >>= λ rest. return (here ++ rest)

unfoldable pub create_all : List Proposal → M (List Proposal)
unfolding create_proposal
create_all [] = return []
create_all (p ∷ ps) = create_proposal p >>= λ row. create_all ps >>= λ rows. return (row ∷ rows)

-- The unknown proposals are inserted, and the election counts them.
unfoldable pub insert_unknown : Poll → List Proposal → ProposalMap → M ProposalMap
unfolding create_all put_all election_by_height update_election
insert_unknown p [] known = return known
insert_unknown p (new ∷ more) known = do
  rows ← create_all (new ∷ more)
  election ← election_by_height p.block.height
  guard election.is_open GovError.election_closed
  update_election (record election {
    is_empty = false;
    num_proposals = add64 election.num_proposals (length rows);
  })
  return (put_all rows known)

-- `Count(&cnt)` over the ballots, as a test that there is one.
unfoldable pub voted : ℕ → Int64 → List Ballot → Bool
voted source period [] = false
voted source period (b ∷ bs) =
    let rest = voted source period bs in
    if b.source_id == source && b.voting_period == period then true else rest

unfoldable pub voted_for : ℕ → Int64 → ℕ → List Ballot → Bool
voted_for source period id [] = false
voted_for source period id (b ∷ bs) =
    let rest = voted_for source period id bs in
    if b.source_id == source && (b.voting_period == period && b.proposal_id == id)
    then true
    else rest

-- The ballots for the hashes of one operation, which also go to the proposals in the map.
unfoldable pub support :
    Poll
    → Vote
    → Account
    → Op
    → Int64
    → List (List ℕ)
    → ProposalMap × List Ballot
    → M (ProposalMap × List Ballot)
unfolding find_known put_known voted_for
support p vote acc o n [] s = return s
support p vote acc o n (h ∷ hs) (known, made) = do
  prop ← need GovError.missing_proposal (find_known h known)
  before ← read (λ g. voted_for acc.row_id vote.voting_period prop.row_id g.ballots)
  support p vote acc o n hs (
      if before then (known, made) else (
        put_known h (record prop { voters = add64 prop.voters 1; rolls = add64 prop.rolls n })
            known,
        made
            ++ (record zero_ballot {
              election_id = vote.election_id;
              proposal_id = prop.row_id;
              voting_period = vote.voting_period;
              voting_period_kind = vote.voting_period_kind;
              height = p.block.height;
              time = p.block.timestamp;
              source_id = acc.row_id;
              op_id = o.row_id;
              rolls = n;
              ballot = BallotVote.yay;
            }
                ∷ []),
      ))

-- The second loop: an account counts for the turnout unless it has voted before.
unfoldable pub count_proposal :
    Lookups → Poll → Op → Vote → ProposalMap × List Ballot → M (Vote × (ProposalMap × List Ballot))
unfolding sent voter_rolls support voted count_turnout
count_proposal k p o vote s = do
  source ← sent k o
  n ← voter_rolls k p vote source.0
  s' ← support p vote source.0 o n source.1 s
  before ← read (λ g. voted source.0.row_id vote.voting_period g.ballots)
  return (if before then vote else count_turnout n vote, s')

unfoldable pub count_proposals :
    Lookups
    → Poll
    → List Op
    → Vote
    → ProposalMap × List Ballot
    → M (Vote × (ProposalMap × List Ballot))
unfolding count_proposal
count_proposals k p [] vote s = return (vote, s)
count_proposals k p (o ∷ os) vote s =
    let one : M (Vote × (ProposalMap × List Ballot)) =
      if is_proposals o.type then count_proposal k p o vote s else return (vote, s) in
    one >>= λ next. count_proposals k p os next.0 next.1

-- `updateThisVot`: the columns of a count of proposals.
unfoldable pub update_this_vot : Vote → M (Unit {0})
unfolding update_rows
update_this_vot v = write λ g. record g {
  votes =
      update_rows (λ r. r.row_id == v.row_id)
        (λ r. record r {
          turnout_rolls = v.turnout_rolls;
          turnout_voters = v.turnout_voters;
          eligible_rolls = v.eligible_rolls;
          eligible_voters = v.eligible_voters;
          quorum_pct = v.quorum_pct;
          turnout_pct = v.turnout_pct;
        })
        g.votes;
}

unfoldable pub update_proposals : ProposalMap → M (Unit {0})
unfolding update_proposal
update_proposals [] = return tt
update_proposals ((h, p) ∷ ps) = update_proposal p >> update_proposals ps

-- `processProposals`
unfoldable pub process_proposals : Lookups → Poll → M (Unit {0})
unfolding vote_by_height proposals_by_election put_all find_unknown insert_unknown count_proposals
    finish_turnout update_this_vot update_proposals create_ballots
process_proposals k p = if p.block.n_proposal == 0 then return tt else (do
  vote ← vote_by_height p.block.height
  proposals ← proposals_by_election vote.election_id
  let known = put_all proposals []
  new ← find_unknown k p vote known p.block.ops
  known' ← insert_unknown p new known
  counted ← count_proposals k p p.block.ops vote (known', [])
  v ← finish_turnout p counted.0
  update_this_vot v
  update_proposals counted.1.0
  create_ballots counted.1.1)
