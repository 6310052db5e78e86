-- ===== src/Puller/Index/Gov/Periods.antt =====
-- puller/index/govindex.go: what the last block of a voting period does to its vote and election.
use tezos_index.Common.{
  Bool, true, false, not, ◌&&◌, ◌||◌, ◌≡◌, ◌⊎◌, refl, sym, ap, ◌∙◌, List, Option, some, ◌==◌, arith,
  if◌then◌else◌, Bool-cases, Option-cases, inl, inr,
}
use tezos_index.Common.Int64.{Int64, add64, mul64, div64, lt64}
use tezos_index.Chain.Params.{is_vote_start, is_vote_end}
use tezos_index.Chain.Voting.{VotingPeriodKind}
use tezos_index.Models.Gov.{Election, Vote}
use tezos_index.Puller.Index.Gov.Defs.{
  Gov, GovError, Ended, done, failed, M, and_then, ◌>>=◌, ◌>>◌, return, need, guard, update_rows,
  last_with, vote_by_height, election_by_height, update_this_vote, update_election,
}
use tezos_index.Puller.Index.Gov.Elections.{Poll, close_vote, close_election, decide, count_ballots}
use tezos_index.Puller.Index.Gov.Quorum.{is_poll}
use tezos_index.Puller.Index.Gov.Ballots.{Lookups}
use tezos_index.Puller.Index.Gov.Turnout.{need-eq-done}
use tezos_index.Puller.Index.Gov.{
  end_period, connect_block, process, is_proposal, dropped, silent, first_vote_block,
  is_period_start, is_period_end,
}
use tezos_index.Puller.Index.Gov.Updates.{closed_row, vote-updated, election-updated}

-- A ballot fails where fewer rolls take part than the quorum asks for, or fewer than 80 %, rounded
-- down, of the rolls for or against are for it.
abbrev pub ballots_fail : Vote → Bool
ballots_fail v =
    lt64 v.turnout_rolls v.quorum_rolls
    || lt64 v.yay_rolls (div64 (mul64 (add64 v.yay_rolls v.nay_rolls) 8) 10)

count_ballots-is_failed : (v : Vote) → (count_ballots v).is_failed ≡ ballots_fail v
unfolding count_ballots
count_ballots-is_failed v = refl

-- A testing or a promotion vote is decided by its ballots.
decide-poll :
    (p : Poll) (kind : VotingPeriodKind) (v : Vote)
    → is_poll kind ≡ true
    → decide p kind v ≡ return (count_ballots v)
unfolding decide
decide-poll p VotingPeriodKind.testing_vote v h = refl
decide-poll p VotingPeriodKind.promotion_vote v h = refl
decide-poll p VotingPeriodKind.proposal v h = absurd (ground (arith, h))
decide-poll p kind v h = absurd (ground (arith, h))

is_poll-is_proposal : (kind : VotingPeriodKind) → is_poll kind ≡ true → is_proposal kind ≡ false
is_poll-is_proposal VotingPeriodKind.testing_vote h = refl
is_poll-is_proposal VotingPeriodKind.proposal h = absurd (ground (arith, h))
is_poll-is_proposal kind h = refl

past_first :
    (height : Int64)
    → lt64 first_vote_block height ≡ true
    → (lt64 height first_vote_block ≡ false) × ((height == first_vote_block) ≡ false)
unfolding lt64
past_first height h = (ground (arith, h), ground (arith, h))

module _ (p : Poll) (g : Gov) (v : Vote) (found : vote_by_height p.block.height g ≡ done v g)
    (open_vote : v.is_open ≡ true) (poll : is_poll v.voting_period_kind ≡ true) where
  -- The vote with its result, and the tables with it.
  abbrev result : Vote
  result = record (count_ballots v) { end_time = p.block.timestamp; is_open = false }

  abbrev after_vote : Gov
  after_vote = record g {
    votes = update_rows (λ r. r.row_id == v.row_id) (closed_row result) g.votes;
  }

  close_vote-poll : close_vote p g ≡ done (not (count_ballots v).is_failed) after_vote
  unfolding close_vote update_this_vote closed_row count_ballots
  close_vote-poll =
      rw (found, decide-poll p v.voting_period_kind v poll)
        (ap (λ (b : Bool). and_then (guard b GovError.vote_closed g) write_back) open_vote)
    where
      write_back : Unit {0} → M Bool
      write_back u = update_this_vote result >> return (not (count_ballots v).is_failed)

  closed_vote : vote_by_height p.block.height after_vote ≡ done (closed_row result v) after_vote
  closed_vote = vote-updated p.block.height g v result found

  election_there :
      (e : Election)
      → election_by_height p.block.height g ≡ done e g
      → election_by_height p.block.height after_vote ≡ done e after_vote
  unfolding election_by_height
  election_there e h =
      let test : Election → Bool = λ r. not (lt64 p.block.height r.start_height) in
      ap (λ (o : Option Election). need GovError.no_election o after_vote)
        (need-eq-done GovError.no_election (last_with test g.elections) g g h).0

  -- The election as a failed vote closes it.
  abbrev failed_election : Election → Vote → Election
  failed_election e w = record e {
    end_height = w.end_height;
    end_time = w.end_time;
    is_open = false;
    is_empty = e.num_proposals == 0 && w.is_failed;
    is_failed = w.is_failed;
    no_quorum = w.no_quorum;
    no_majority = w.no_majority;
  }

  abbrev shut : Election → Gov
  shut e = record after_vote {
    elections =
        update_rows (λ r. r.row_id == e.row_id) (λ r. failed_election e (closed_row result v))
          after_vote.elections;
  }

  close_election-open :
      (e : Election)
      → election_by_height p.block.height g ≡ done e g
      → e.is_open ≡ true
      → close_election p after_vote ≡ done tt (shut e)
  unfolding close_election update_election closed_row
  close_election-open e h is_open = rw (election_there e h) (
      ap (λ (b : Bool). and_then (guard b GovError.election_closed after_vote) rest) is_open
      ∙ rw closed_vote refl)
    where
      rest : Unit {0} → M (Unit {0})
      rest u = vote_by_height p.block.height >>= λ vote.
          guard (not vote.is_open) GovError.vote_not_closed
          >> update_election (failed_election e vote)

  after_close :
      (success : Bool)
      → is_proposal p.kind ≡ false
      → not (count_ballots v).is_failed ≡ success
      → end_period p g ≡ (if not success then close_election p after_vote else done tt after_vote)
  unfolding end_period
  after_close success other h = rw (close_vote-poll, h, other) (cases success)
    where
      cases :
          (b : Bool)
          → (if not b || false then close_election p else return tt) after_vote
            ≡ (if not b then close_election p after_vote else done tt after_vote)
      cases true = refl
      cases false = refl

  closed_row-fields :
      ((closed_row result v).is_open ≡ false)
      × ((closed_row result v).is_failed ≡ (count_ballots v).is_failed)
  unfolding closed_row
  closed_row-fields = (refl, refl)

  shut_election :
      (e : Election)
      → election_by_height p.block.height g ≡ done e g
      → election_by_height p.block.height (shut e)
        ≡ done (failed_election e (closed_row result v)) (shut e)
  shut_election e h =
      election-updated p.block.height after_vote e (failed_election e (closed_row result v))
        (election_there e h) refl

  shut_vote :
      (e : Election) → vote_by_height p.block.height (shut e) ≡ done (closed_row result v) (shut e)
  unfolding vote_by_height
  shut_vote e =
      let test : Vote → Bool = λ r. not (lt64 p.block.height r.start_height) in
      ap (λ (o : Option Vote). need GovError.no_vote o (shut e))
        (need-eq-done GovError.no_vote (last_with test after_vote.votes) after_vote after_vote
          closed_vote).0

  -- The last block of a testing or promotion period, where the current vote is an open poll and the
  -- current election is open, closes the vote. It fails where fewer rolls take part than the quorum asks
  -- for, or fewer than 80 %, rounded down, of the rolls for or against are for it. The election
  -- stays open exactly where the vote did not fail, so a promotion vote that succeeds, with which the
  -- election ends, leaves it open.
  pub end_period-Closed :
      (e : Election)
      → is_proposal p.kind ≡ false
      → election_by_height p.block.height g ≡ done e g
      → e.is_open ≡ true
      → (g' : Gov) × (end_period p g ≡ done tt g')
        × (v' : Vote) × (e' : Election) × (vote_by_height p.block.height g' ≡ done v' g')
        × (v'.is_open ≡ false)
        × (v'.is_failed ≡ ballots_fail v)
        × (election_by_height p.block.height g' ≡ done e' g')
        × (e'.is_open ≡ not (ballots_fail v))
  end_period-Closed e other h is_open = elim (Bool-cases (not (count_ballots v).is_failed)) [
    | inl good ↦ (
      after_vote,
      after_close true other good,
      closed_row result v,
      e,
      closed_vote,
      closed_row-fields.0,
      closed_row-fields.1 ∙ count_ballots-is_failed v,
      election_there e h,
      is_open ∙ sym good ∙ ap not (count_ballots-is_failed v),
    )
    | inr bad ↦ (
      shut e,
      after_close false other bad ∙ close_election-open e h is_open,
      closed_row result v,
      failed_election e (closed_row result v),
      shut_vote e,
      closed_row-fields.0,
      closed_row-fields.1 ∙ count_ballots-is_failed v,
      shut_election e h,
      sym bad ∙ ap not (count_ballots-is_failed v),
    )
  ]

  -- Closing an election changes no vote, and where it fails nothing.
  close_election-votes :
      (h : Gov)
      → ((h' : Gov) × (close_election p h ≡ done tt h') × (h'.votes ≡ h.votes))
        ⊎ ((x : GovError) × (close_election p h ≡ failed x h))
  unfolding close_election election_by_height vote_by_height update_election
  close_election-votes h =
      let early : Election → Bool = λ r. not (lt64 p.block.height r.start_height) in
      let begun : Vote → Bool = λ r. not (lt64 p.block.height r.start_height) in
      elim (Option-cases (last_with early h.elections)) [
        | inl out ↦ inr (GovError.no_election, ground (arith, out))
        | inr (e, there) ↦ elim (Option-cases (last_with begun h.votes)) [
          | inl out ↦ elim (Bool-cases e.is_open) [
            | inl o ↦ inr (GovError.no_vote, ground (arith, there, out, o))
            | inr c ↦ inr (GovError.election_closed, ground (arith, there, c))
          ]
          | inr (w, here) ↦ elim (Bool-cases e.is_open) [
            | inl o ↦ elim (Bool-cases w.is_open) [
              | inl still ↦ inr (GovError.vote_not_closed, ground (arith, there, here, o, still))
              | inr ended ↦ inl (
                record h {
                  elections =
                      update_rows (λ r. r.row_id == e.row_id) (λ r. failed_election e w)
                        h.elections;
                },
                ground (arith, there, here, o, ended),
                refl,
              )
            ]
            | inr c ↦ inr (GovError.election_closed, ground (arith, there, c))
          ]
        ]
      ]

  -- Whatever becomes of the election, the end of a period leaves the vote closed.
  votes_closed :
      (m : M (Unit {0}))
      → ((h' : Gov) × (m after_vote ≡ done tt h') × (h'.votes ≡ after_vote.votes))
        ⊎ ((x : GovError) × (m after_vote ≡ failed x after_vote))
      → (g' : Gov) × (dropped m after_vote ≡ done tt g') × (g'.votes ≡ after_vote.votes)
  votes_closed m (inl (h', e, same)) = (h', ap silent e, same)
  votes_closed m (inr (x, e)) = (after_vote, ap silent e, refl)

  vote_of :
      (g' : Gov)
      → g'.votes ≡ after_vote.votes
      → vote_by_height p.block.height g' ≡ done (closed_row result v) g'
  unfolding vote_by_height
  vote_of g' same =
      let test : Vote → Bool = λ r. not (lt64 p.block.height r.start_height) in
      ap (λ (vs : List Vote). need GovError.no_vote (last_with test vs) g') same
      ∙ ap (λ (o : Option Vote). need GovError.no_vote o g')
          (need-eq-done GovError.no_vote (last_with test after_vote.votes) after_vote after_vote
            closed_vote).0

  ended :
      is_proposal p.kind ≡ false
      → (g' : Gov) × (dropped (end_period p) g ≡ done tt g') × (g'.votes ≡ after_vote.votes)
  ended other = elim (Bool-cases (not (count_ballots v).is_failed)) [
    | inl good ↦ (after_vote, ap silent (after_close true other good), refl)
    | inr bad ↦
        let r = votes_closed (close_election p) (close_election-votes after_vote) in
        (r.0, ap silent (after_close false other bad) ∙ r.1, r.2)
  ]

  -- `ConnectBlock` of the last block of a period always ends, and leaves the current vote closed. It
  -- fails where fewer rolls take part than the quorum asks for, or fewer than 80 %, rounded down, of
  -- the rolls for or against are for it. The conditions: the block is past block 2, is not the first of
  -- a period, is in no proposal period, and its ballots are processed without an error into tables
  -- where the current vote is an open poll, of whose counts this is said; whether the election is
  -- closed as well or that fails does not matter.
  pub connect_block-closes :
      (k : Lookups) (start : Gov)
      → lt64 first_vote_block p.block.height ≡ true
      → is_vote_start p.block.params p.block.height ≡ some false
      → is_vote_end p.block.params p.block.height ≡ some true
      → is_proposal p.kind ≡ false
      → process k p.kind p start ≡ done tt g
      → (g' : Gov) × (connect_block k p start ≡ done tt g')
        × (v' : Vote) × (vote_by_height p.block.height g' ≡ done v' g')
        × (v'.is_open ≡ false)
        × (v'.is_failed ≡ ballots_fail v)
  unfolding connect_block is_period_start is_period_end
  connect_block-closes k start late inside last other ran =
      let r = ended other in
      let late_enough = past_first p.block.height late in
      (
        r.0,
        rw (late_enough.0, late_enough.1, late, inside, last)
            (ap (λ (o : Ended (Unit {0})). silent (and_then o (λ u. end_period p))) ran ∙ r.1),
        closed_row result v,
        vote_of r.0 r.2,
        closed_row-fields.0,
        closed_row-fields.1 ∙ count_ballots-is_failed v,
      )
