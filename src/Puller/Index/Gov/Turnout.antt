-- ===== src/Puller/Index/Gov/Turnout.antt =====
-- puller/index/govindex.go: what counting the ballots of a block does to the vote.
use mathlib.Core.List.{append_assoc, append-nil}
use tezos_index.Common.{
  Bool, true, false, ◌≡◌, refl, sym, ap, ◌∙◌, subst, List, [], ◌∷◌, ◌++◌, Option, none, some,
  if◌then◌else◌, Bool-cases, inl, inr,
}
use tezos_index.Common.Int64.{Int64, IsInt64, add64, sub64, add64_assoc, add64-IsInt64}
use tezos_index.Models.Income.Laws.{add64-zero}
use tezos_index.Chain.Voting.{BallotVote}
use tezos_index.Models.Op.{Op}
use tezos_index.Models.Account.{Account}
use tezos_index.Models.Gov.{Vote, Ballot}
use tezos_index.Puller.Index.Gov.Defs.{Gov, GovError, Ended, done, failed, panic, M, and_then, need}
use tezos_index.Puller.Index.Gov.Elections.{Poll}
use tezos_index.Puller.Index.Gov.Ballots.{
  Lookups, voter_rolls, count_side, count_turnout, is_ballot, count_ballot, count_all,
}

-- A step that ended with a value did so in each of its parts.
pub and_then-eq-done :
    {A B : Type 0} (r : Ended A) (f : A → M B) {g' : Gov} {b : B}
    → and_then r f ≡ done b g'
    → (a : A) × (h : Gov) × (r ≡ done a h) × (f a h ≡ done b g')
and_then-eq-done (done a h) f e = (a, h, refl, e)
and_then-eq-done (failed x h) f e = cc
and_then-eq-done panic f e = cc

pub need-eq-done :
    {A : Type 0} (x : GovError) (o : Option A) (g g' : Gov) {a : A}
    → need x o g ≡ done a g'
    → (o ≡ some a) × (g ≡ g')
need-eq-done x none g g' e = cc
need-eq-done x (some a) g g' e = (cc, cc)

pub done_value : {A : Type 0} {a b : A} {g g' : Gov} → done a g ≡ done b g' → a ≡ b
done_value e = cc

pub done_state : {A : Type 0} {a b : A} {g g' : Gov} → done a g ≡ done b g' → g ≡ g'
done_state e = cc

-- The rolls of the ballots of one side, modulo 2 ^ 64, and their number.
pub data Side : Type 0 where
  yays nays passes all : Side

unfoldable pub on_side : Side → BallotVote → Bool
on_side Side.yays BallotVote.yay = true
on_side Side.nays BallotVote.nay = true
on_side Side.passes BallotVote.pass = true
on_side Side.all b = true
on_side s b = false

unfoldable pub side_rolls : Side → List Ballot → Int64
unfolding on_side
side_rolls s [] = 0
side_rolls s (b ∷ bs) =
    if on_side s b.ballot then add64 b.rolls (side_rolls s bs) else side_rolls s bs

unfoldable pub side_voters : Side → List Ballot → Int64
unfolding on_side
side_voters s [] = 0
side_voters s (b ∷ bs) = if on_side s b.ballot then add64 1 (side_voters s bs) else side_voters s bs

-- What a vote has counted for a side.
unfoldable pub vote_rolls : Side → Vote → Int64
vote_rolls Side.yays v = v.yay_rolls
vote_rolls Side.nays v = v.nay_rolls
vote_rolls Side.passes v = v.pass_rolls
vote_rolls Side.all v = v.turnout_rolls

unfoldable pub vote_voters : Side → Vote → Int64
vote_voters Side.yays v = v.yay_voters
vote_voters Side.nays v = v.nay_voters
vote_voters Side.passes v = v.pass_voters
vote_voters Side.all v = v.turnout_voters

-- The counters of a vote are in range.
abbrev pub IsCounted : Vote → Type 0
IsCounted v = (s : Side) → IsInt64 (vote_rolls s v) × IsInt64 (vote_voters s v)

-- Every ballot of the list, and nothing else, has been counted on its side and for the turnout.
abbrev pub Counts : Vote → List Ballot → Vote → Type 0
Counts v new v' =
    (s : Side)
    → (vote_rolls s v' ≡ add64 (vote_rolls s v) (side_rolls s new))
      × (vote_voters s v' ≡ add64 (vote_voters s v) (side_voters s new))

-- One ballot.
count_one :
    (s : Side) (b : BallotVote) (n : Int64) (v : Vote)
    → (vote_rolls s (count_side b n (count_turnout n v))
        ≡ (if on_side s b then add64 (vote_rolls s v) n else vote_rolls s v))
      × (vote_voters s (count_side b n (count_turnout n v))
          ≡ (if on_side s b then add64 (vote_voters s v) 1 else vote_voters s v))
unfolding vote_rolls vote_voters on_side count_side count_turnout
count_one Side.yays BallotVote.yay n v = (refl, refl)
count_one Side.nays BallotVote.yay n v = (refl, refl)
count_one Side.passes BallotVote.yay n v = (refl, refl)
count_one Side.all BallotVote.yay n v = (refl, refl)
count_one s b n v = (refl, refl)

count_side-row_id :
    (b : BallotVote) (n : Int64) (v : Vote) → (count_side b n (count_turnout n v)).row_id ≡ v.row_id
unfolding count_side count_turnout
count_side-row_id BallotVote.yay n v = refl
count_side-row_id b n v = refl

voter_rolls-state :
    (k : Lookups) (p : Poll) (v : Vote) (acc : Account) (n : Int64) (g g' : Gov)
    → voter_rolls k p v acc g ≡ done n g'
    → g ≡ g'
unfolding voter_rolls
voter_rolls-state k p v acc n g g' e =
    let looked = k.snapshot_rolls acc.row_id (sub64 v.start_height 1) in
    let found = and_then-eq-done (need GovError.missing_rolls looked g) _ e in
    (need-eq-done GovError.missing_rolls looked g found.1 found.2).1 ∙ done_state found.3

count_ballot-one :
    (k : Lookups) (p : Poll) (o : Op) (v v' : Vote) (made made' : List Ballot) (g g' : Gov)
    → count_ballot k p o (v, made) g ≡ done (v', made') g'
    → (b : Ballot) × (made' ≡ made ++ b ∷ [])
      × (v' ≡ count_side b.ballot b.rolls (count_turnout b.rolls v))
      × (g ≡ g')
unfolding count_ballot
count_ballot-one k p o v v' made made' g g' e =
    let cast = and_then-eq-done (need GovError.missing_op (k.ballot o) g) _ e in
    let acc =
      and_then-eq-done (need GovError.missing_account (k.account cast.0.0) cast.1) _ cast.3 in
    let n = and_then-eq-done (voter_rolls k p v acc.0 acc.1) _ acc.3 in
    let same =
      (need-eq-done GovError.missing_op (k.ballot o) g cast.1 cast.2).1
      ∙ (need-eq-done GovError.missing_account (k.account cast.0.0) cast.1 acc.1 acc.2).1
      ∙ voter_rolls-state k p v acc.0 n.0 acc.1 n.1 n.2 in
    let end = done_value n.3 in
    (
      _,
      ap (λ (s : Vote × List Ballot). s.1) (sym end),
      ap (λ (s : Vote × List Ballot). s.0) (sym end),
      same ∙ done_state n.3,
    )

-- A ballot after others.
side_rolls-front :
    (s : Side) (b : Ballot) (v : Vote) (bs : List Ballot)
    → add64
        (if on_side s b.ballot then add64 (vote_rolls s v) b.rolls else vote_rolls s v)
        (side_rolls s bs)
      ≡ add64 (vote_rolls s v) (side_rolls s (b ∷ bs))
unfolding side_rolls
side_rolls-front s b v bs = elim (Bool-cases (on_side s b.ballot)) [
  | inl e ↦ rw e (add64_assoc (vote_rolls s v) b.rolls (side_rolls s bs))
  | inr e ↦ rw e refl
]

side_voters-front :
    (s : Side) (b : Ballot) (v : Vote) (bs : List Ballot)
    → add64
        (if on_side s b.ballot then add64 (vote_voters s v) 1 else vote_voters s v)
        (side_voters s bs)
      ≡ add64 (vote_voters s v) (side_voters s (b ∷ bs))
unfolding side_voters
side_voters-front s b v bs = elim (Bool-cases (on_side s b.ballot)) [
  | inl e ↦ rw e (add64_assoc (vote_voters s v) 1 (side_voters s bs))
  | inr e ↦ rw e refl
]

Counts-front :
    (v v' : Vote) (b : Ballot) (bs : List Ballot)
    → Counts (count_side b.ballot b.rolls (count_turnout b.rolls v)) bs v'
    → Counts v (b ∷ bs) v'
Counts-front v v' b bs h s =
    let one = count_one s b.ballot b.rolls v in
    (
      (h s).0 ∙ rw one.0 (side_rolls-front s b v bs),
      (h s).1 ∙ rw one.1 (side_voters-front s b v bs),
    )

nothing : (v : Vote) → IsCounted v → Counts v [] v
unfolding side_rolls side_voters
nothing v h s =
    (sym (add64-zero (vote_rolls s v) (h s).0), sym (add64-zero (vote_voters s v) (h s).1))

count_one-IsCounted :
    (b : Ballot) (v : Vote)
    → IsCounted v
    → IsCounted (count_side b.ballot b.rolls (count_turnout b.rolls v))
count_one-IsCounted b v h s =
    let one = count_one s b.ballot b.rolls v in
    elim (Bool-cases (on_side s b.ballot)) [
      | inl e ↦ (
        rw (one.0, e) (add64-IsInt64 (vote_rolls s v) b.rolls),
        rw (one.1, e) (add64-IsInt64 (vote_voters s v) 1),
      )
      | inr e ↦ (rw (one.0, e) (h s).0, rw (one.1, e) (h s).1)
    ]

pub count_all-Counts :
    (k : Lookups) (p : Poll) (os : List Op) (v v' : Vote) (made made' : List Ballot) (g g' : Gov)
    → IsCounted v
    → count_all k p os (v, made) g ≡ done (v', made') g'
    → (new : List Ballot) × (made' ≡ made ++ new)
      × Counts v new v'
      × (g ≡ g')
      × (v'.row_id ≡ v.row_id)
unfolding count_all
count_all-Counts k p [] v v' made made' g g' h e =
    let end = done_value e in
    (
      [],
      ap (λ (s : Vote × List Ballot). s.1) (sym end) ∙ sym (append-nil made),
      subst (Counts v []) (ap (λ (s : Vote × List Ballot). s.0) end) (nothing v h),
      done_state e,
      ap (λ (s : Vote × List Ballot). s.0.row_id) (sym end),
    )
count_all-Counts k p (o ∷ os) v v' made made' g g' h e = elim (Bool-cases (is_ballot o.type)) [
  | inr other ↦ count_all-Counts k p os v v' made made' g g' h (rw other at e)
  | inl ballot ↦
      let one =
        and_then-eq-done (count_ballot k p o (v, made) g) (count_all k p os) (rw ballot at e) in
      let b = count_ballot-one k p o v one.0.0 made one.0.1 g one.1 one.2 in
      let next = count_side b.0.ballot b.0.rolls (count_turnout b.0.rolls v) in
      let ranged = subst IsCounted (sym b.2) (count_one-IsCounted b.0 v h) in
      let rest = count_all-Counts k p os one.0.0 v' one.0.1 made' one.1 g' ranged one.3 in
      (
        b.0 ∷ rest.0,
        rest.1 ∙ ap (λ (l : List Ballot). l ++ rest.0) b.1 ∙ append_assoc made (b.0 ∷ []) rest.0,
        Counts-front v v' b.0 rest.0 (subst (λ (w : Vote). Counts w rest.0 v') b.2 rest.2),
        b.3 ∙ rest.3,
        rest.4 ∙ ap (λ (w : Vote). w.row_id) b.2 ∙ count_side-row_id b.0.ballot b.0.rolls v,
      )
]
