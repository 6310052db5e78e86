-- ===== src/Puller/Index/Gov/Defs.antt =====
-- puller/index/govindex.go: the tables of the governance index, and the queries on them.
use tezos_index.Common.{
  ℕ, suc, Bool, true, false, not, List, [], ◌∷◌, ◌++◌, Option, none, some, ◌==◌, if◌then◌else◌,
}
use tezos_index.Common.Int64.{Int64, lt64}
use tezos_index.Models.Gov.{Election, Proposal, Vote, Ballot}

-- The rows in the order of their row ids, and the ids that the next rows get.
pub record Gov : Type 0 where
  pub elections : List Election
  pub proposals : List Proposal
  pub votes : List Vote
  pub ballots : List Ballot
  pub next_election : ℕ
  pub next_proposal : ℕ
  pub next_vote : ℕ
  pub next_ballot : ℕ

pub data GovError : Type 0 where
  no_election no_vote vote_closed election_closed vote_not_closed : GovError
  missing_op missing_account missing_rolls missing_proposal : GovError

-- A step ends with a value or an error, and in both cases with what it wrote so far; or it panics.
pub data Ended (A : Type 0) : Type 0 where
  done : A → Gov → Ended A
  failed : GovError → Gov → Ended A
  panic : Ended A

abbrev pub M : Type 0 → Type 0
M A = Gov → Ended A

abbrev pub and_then : {A B : Type 0} → Ended A → (A → M B) → Ended B
and_then (done a g) f = f a g
and_then (failed e g) f = failed e g
and_then panic f = panic

infixl 5 ◌>>=◌ ◌>>◌
abbrev pub ◌>>=◌ : {A B : Type 0} → M A → (A → M B) → M B
◌>>=◌ m f g = and_then (m g) f

abbrev pub ◌>>◌ : {B : Type 0} → M (Unit {0}) → M B → M B
◌>>◌ m k = m >>= λ _. k

abbrev pub return : {A : Type 0} → A → M A
return a g = done a g

abbrev pub fail : {A : Type 0} → GovError → M A
fail e g = failed e g

abbrev pub read : {A : Type 0} → (Gov → A) → M A
read f g = done (f g) g

abbrev pub write : (Gov → Gov) → M (Unit {0})
write f g = done tt (f g)

-- `if bad { return error }`
abbrev pub guard : Bool → GovError → M (Unit {0})
guard true e = return tt
guard false e = fail e

abbrev pub need : {A : Type 0} → GovError → Option A → M A
need e none = fail e
need e (some a) = return a

-- `Where(…).Last(…)`
unfoldable pub last_with {ℓ} : {A : Type ℓ} → (A → Bool) → List A → Option A
last_with p [] = none
last_with p (x ∷ xs) = elim (last_with p xs) [
  | some y ↦ some y
  | none ↦ if p x then some x else none
]

-- `Where("row_id = ?", …).Updates(…)`
unfoldable pub update_rows {ℓ} : {A : Type ℓ} → (A → Bool) → (A → A) → List A → List A
update_rows p f [] = []
update_rows p f (x ∷ xs) = (if p x then f x else x) ∷ update_rows p f xs

-- `Where(…).Find(…)`
unfoldable pub rows_where {ℓ} : {A : Type ℓ} → (A → Bool) → List A → List A
rows_where p [] = []
rows_where p (x ∷ xs) = let rest = rows_where p xs in if p x then x ∷ rest else rest

-- `electionByHeight`
unfoldable pub election_by_height : Int64 → M Election
unfolding last_with
election_by_height height g =
    need GovError.no_election (last_with (λ e. not (lt64 height e.start_height)) g.elections) g

-- `voteByHeight`
unfoldable pub vote_by_height : Int64 → M Vote
unfolding last_with
vote_by_height height g =
    need GovError.no_vote (last_with (λ v. not (lt64 height v.start_height)) g.votes) g

-- `proposalsByElection`
unfoldable pub proposals_by_election : ℕ → M (List Proposal)
unfolding rows_where
proposals_by_election id = read (λ g. rows_where (λ p. p.election_id == id) g.proposals)

-- `models.UpdateElection`: every column.
unfoldable pub update_election : Election → M (Unit {0})
unfolding update_rows
update_election e =
    write λ g. record g { elections = update_rows (λ r. r.row_id == e.row_id) (λ r. e) g.elections }

-- `models.UpdateProposal`
unfoldable pub update_proposal : Proposal → M (Unit {0})
unfolding update_rows
update_proposal p =
    write λ g. record g { proposals = update_rows (λ r. r.row_id == p.row_id) (λ r. p) g.proposals }

-- `updateThisVote`: the columns of a result.
unfoldable pub update_this_vote : Vote → M (Unit {0})
unfolding update_rows
update_this_vote v = write λ g. record g {
  votes =
      update_rows (λ r. r.row_id == v.row_id)
        (λ r. record r {
          proposal_id = v.proposal_id;
          no_proposal = v.no_proposal;
          no_quorum = v.no_quorum;
          is_draw = v.is_draw;
          is_failed = v.is_failed;
          no_majority = v.no_majority;
          end_time = v.end_time;
          is_open = v.is_open;
        })
        g.votes;
}

-- `tx.Create(election)` and so on: the new row gets the next id.
unfoldable pub create_election : Election → M (Unit {0})
create_election e = write λ g. record g {
  elections = g.elections ++ (record e { row_id = g.next_election } ∷ []);
  next_election = suc g.next_election;
}

unfoldable pub create_vote : Vote → M (Unit {0})
create_vote v = write λ g. record g {
  votes = g.votes ++ (record v { row_id = g.next_vote } ∷ []);
  next_vote = suc g.next_vote;
}

unfoldable pub create_proposal : Proposal → M Proposal
create_proposal p g =
    let row = record p { row_id = g.next_proposal } in
    done row
      (record g { proposals = g.proposals ++ (row ∷ []); next_proposal = suc g.next_proposal })

unfoldable pub create_ballot : Ballot → M (Unit {0})
create_ballot b = write λ g. record g {
  ballots = g.ballots ++ (record b { row_id = g.next_ballot } ∷ []);
  next_ballot = suc g.next_ballot;
}
