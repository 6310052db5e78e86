-- ===== src/Puller/Index/Gov/Counted.antt =====
-- puller/index/govindex.go: what `processBallots` does to the tables.
use mathlib.Core.List.{append_assoc, append-nil}
use tezos_index.Common.{
  ℕ, suc, false, not, ◌≡◌, refl, sym, ap, ◌∙◌, subst, List, [], ◌∷◌, ◌++◌, ◌==◌, arith, Bool-cases,
  inl, inr,
}
use tezos_index.Common.Int64.{Int64, lt64}
use tezos_index.Models.Gov.{Vote, Ballot}
use tezos_index.Puller.Index.Gov.Defs.{
  Gov, GovError, done, and_then, update_rows, vote_by_height, create_ballot, last_with,
}
use tezos_index.Puller.Index.Gov.Quorum.{quorum_by_height}
use tezos_index.Puller.Index.Gov.Elections.{Poll}
use tezos_index.Puller.Index.Gov.Ballots.{
  Lookups, count_all, with_eligible, turnout_share, finish_turnout, update_the_vote, create_ballots,
  process_ballots,
}
use tezos_index.Puller.Index.Gov.Turnout.{
  and_then-eq-done, need-eq-done, done_value, done_state, Side, vote_rolls, vote_voters, IsCounted,
  Counts, count_all-Counts,
}

-- What `updateTheVot` writes of a vote.
unfoldable pub counted_row : Vote → Vote → Vote
counted_row v r = record r {
  turnout_rolls = v.turnout_rolls;
  turnout_voters = v.turnout_voters;
  yay_rolls = v.yay_rolls;
  yay_voters = v.yay_voters;
  nay_rolls = v.nay_rolls;
  nay_voters = v.nay_voters;
  pass_rolls = v.pass_rolls;
  pass_voters = v.pass_voters;
  eligible_rolls = v.eligible_rolls;
  eligible_voters = v.eligible_voters;
  quorum_pct = v.quorum_pct;
  turnout_pct = v.turnout_pct;
}

-- Ballots with the next row ids.
unfoldable pub numbered : ℕ → List Ballot → List Ballot
numbered id [] = []
numbered id (b ∷ bs) = record b { row_id = id } ∷ numbered (suc id) bs

create_ballots-rows :
    (bs : List Ballot) (g g' : Gov)
    → create_ballots bs g ≡ done tt g'
    → (g'.ballots ≡ g.ballots ++ numbered g.next_ballot bs) × (g'.votes ≡ g.votes)
unfolding create_ballots create_ballot numbered
create_ballots-rows [] g g' e =
    let same = done_state e in
    (
      ap (λ (h : Gov). h.ballots) (sym same) ∙ sym (append-nil g.ballots),
      ap (λ (h : Gov). h.votes) (sym same),
    )
create_ballots-rows (b ∷ bs) g g' e =
    let next : Gov = record g {
      ballots = g.ballots ++ (record b { row_id = g.next_ballot } ∷ []);
      next_ballot = suc g.next_ballot;
    } in
    let rest = create_ballots-rows bs next g' e in
    (rest.0 ∙ append_assoc g.ballots (record b { row_id = g.next_ballot } ∷ []) _, rest.1)

-- Neither the eligible rolls nor the share touch a count.
abbrev SameCounts : Vote → Vote → Type 0
SameCounts v w =
    ((s : Side) → (vote_rolls s w ≡ vote_rolls s v) × (vote_voters s w ≡ vote_voters s v))
    × (w.row_id ≡ v.row_id)

turnout_share-SameCounts : (v : Vote) → SameCounts v (turnout_share v)
unfolding turnout_share vote_rolls vote_voters
turnout_share-SameCounts v = (share v, refl)
  where
    share :
        (w : Vote) (s : Side)
        → (vote_rolls s (turnout_share w) ≡ vote_rolls s w)
          × (vote_voters s (turnout_share w) ≡ vote_voters s w)
    share w Side.yays = (refl, refl)
    share w s = (refl, refl)

with_eligible-SameCounts : (p : Poll) (g : Gov) (v : Vote) → SameCounts v (with_eligible p g v)
unfolding with_eligible vote_rolls vote_voters
with_eligible-SameCounts p g v = elim (Bool-cases (v.eligible_rolls == 0)) [
  | inl e ↦ rw e (fresh v, refl)
  | inr e ↦ rw e ((λ s. (refl, refl)), refl)
]
  where
    fresh :
        (w : Vote) (s : Side)
        → (vote_rolls s (record w {
          eligible_rolls = p.chain.rolls;
          eligible_voters = p.chain.roll_owners;
          quorum_pct = (quorum_by_height p.block.params p.block.height g).0;
        })
            ≡ vote_rolls s w)
          × (vote_voters s (record w {
            eligible_rolls = p.chain.rolls;
            eligible_voters = p.chain.roll_owners;
            quorum_pct = (quorum_by_height p.block.params p.block.height g).0;
          })
              ≡ vote_voters s w)
    fresh w Side.yays = (refl, refl)
    fresh w s = (refl, refl)

finish_turnout-SameCounts :
    (p : Poll) (v v' : Vote) (g g' : Gov)
    → finish_turnout p v g ≡ done v' g'
    → SameCounts v v' × (g ≡ g')
unfolding finish_turnout
finish_turnout-SameCounts p v v' g g' e =
    let w = with_eligible p g v in
    let before = with_eligible-SameCounts p g v in
    let after = turnout_share-SameCounts w in
    elim (Bool-cases (w.eligible_rolls == 0)) [
      | inl none_left ↦ absurd (ground (arith, e, none_left))
      | inr some_left ↦
          let end : done (turnout_share w) g ≡ done v' g' = rw some_left at e in
          (
            subst (SameCounts v) (done_value end) (
              λ s. ((after.0 s).0 ∙ (before.0 s).0, (after.0 s).1 ∙ (before.0 s).1),
              after.1 ∙ before.1,
            ),
            done_state end,
          )
    ]

-- The last two writes.
finish-rows :
    (v : Vote) (bs : List Ballot) (g g' : Gov)
    → and_then (update_the_vote v g) (λ u. create_ballots bs) ≡ done tt g'
    → (g'.ballots ≡ g.ballots ++ numbered g.next_ballot bs)
      × (g'.votes ≡ update_rows (λ r. r.row_id == v.row_id) (counted_row v) g.votes)
unfolding update_the_vote counted_row
finish-rows v bs g g' e =
    create_ballots-rows bs
      (record g { votes = update_rows (λ r. r.row_id == v.row_id) (counted_row v) g.votes }) g' e

vote_by_height-state :
    (height : Int64) (g g' : Gov) (v : Vote) → vote_by_height height g ≡ done v g' → g ≡ g'
unfolding vote_by_height
vote_by_height-state height g g' v e =
    (need-eq-done GovError.no_vote (last_with (λ w. not (lt64 height w.start_height)) g.votes) g g'
      e).1

-- Where the ballots of a block are processed, the current vote is found, and a list of ballots is
-- appended to the table under the next row ids. In every row with the id of that vote the rolls and
-- voters for each side, and the turnout, become those of the vote plus the rolls and the number of
-- the new ballots of the side, modulo 2 ^ 64, whatever the operations of the block are. The counts
-- of the current vote are in range before.
pub process_ballots-Counts :
    (k : Lookups) (p : Poll) (g g' : Gov)
    → ((v : Vote) → vote_by_height p.block.height g ≡ done v g → IsCounted v)
    → (p.block.n_ballot == 0) ≡ false
    → process_ballots k p g ≡ done tt g'
    → (v v' : Vote) × (new : List Ballot) × (vote_by_height p.block.height g ≡ done v g)
      × Counts v new v'
      × (g'.ballots ≡ g.ballots ++ numbered g.next_ballot new)
      × (g'.votes ≡ update_rows (λ r. r.row_id == v.row_id) (counted_row v') g.votes)
unfolding process_ballots
process_ballots-Counts k p g g' ranged some_ballots e =
    let height = p.block.height in
    let vote = and_then-eq-done (vote_by_height height g) _ (rw some_ballots at e) in
    let here = vote_by_height-state height g vote.1 vote.0 vote.2 in
    let found : vote_by_height height g ≡ done vote.0 g =
      vote.2 ∙ ap (λ (h : Gov). done vote.0 h) (sym here) in
    let counted = and_then-eq-done (count_all k p p.block.ops (vote.0, []) vote.1) _ vote.3 in
    let all =
      count_all-Counts k p p.block.ops vote.0 counted.0.0 [] counted.0.1 vote.1 counted.1
        (ranged vote.0 found) counted.2 in
    let end = and_then-eq-done (finish_turnout p counted.0.0 counted.1) _ counted.3 in
    let same = finish_turnout-SameCounts p counted.0.0 end.0 counted.1 end.1 end.2 in
    let start = here ∙ all.3 ∙ same.1 in
    let rows = finish-rows end.0 counted.0.1 end.1 g' end.3 in
    let id : end.0.row_id ≡ vote.0.row_id = same.0.1 ∙ all.4 in
    (
      vote.0,
      end.0,
      all.0,
      found,
      λ s. ((same.0.0 s).0 ∙ (all.2 s).0, (same.0.0 s).1 ∙ (all.2 s).1),
      rows.0
          ∙ ap (λ (h : Gov). h.ballots ++ numbered h.next_ballot counted.0.1) (sym start)
          ∙ ap (λ (l : List Ballot). g.ballots ++ numbered g.next_ballot l) all.1,
      rows.1
          ∙ ap
              (λ (h : Gov). update_rows (λ r. r.row_id == end.0.row_id) (counted_row end.0) h.votes)
              (sym start)
          ∙ ap (λ (n : ℕ). update_rows (λ r. r.row_id == n) (counted_row end.0) g.votes) id,
    )
