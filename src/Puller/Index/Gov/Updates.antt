-- ===== src/Puller/Index/Gov/Updates.antt =====
-- puller/index/govindex.go: the current vote and election after their rows are updated.
use tezos_index.Common.{
  Bool, true, not, ◌≡◌, ◌⊎◌, refl, ap, ◌∙◌, subst, List, [], ◌∷◌, none, some, ◌==◌, arith,
  if◌then◌else◌, Bool-cases, Option-cases, inl, inr,
}
use tezos_index.Common.Int64.{Int64, lt64}
use tezos_index.Models.Gov.{Election, Vote}
use tezos_index.Puller.Index.Gov.Defs.{
  Gov, GovError, done, update_rows, last_with, vote_by_height, election_by_height,
}
use tezos_index.Puller.Index.Gov.Turnout.{need-eq-done}

-- What `updateThisVote` writes of a closed vote.
unfoldable pub closed_row : Vote → Vote → Vote
closed_row v r = record r {
  proposal_id = v.proposal_id;
  no_proposal = v.no_proposal;
  no_quorum = v.no_quorum;
  is_draw = v.is_draw;
  is_failed = v.is_failed;
  no_majority = v.no_majority;
  end_time = v.end_time;
  is_open = v.is_open;
}

closed-start :
    (height : Int64) (w v : Vote)
    → not (lt64 height (closed_row w v).start_height) ≡ not (lt64 height v.start_height)
unfolding closed_row
closed-start height w v = refl

-- A lookup after an update that leaves the test alone.
last_with-update_rows :
    {A : Type 0} (p q : A → Bool) (f : A → A)
    → ((a : A) → p (f a) ≡ p a)
    → (xs : List A)
    → last_with p (update_rows q f xs)
      ≡ elim (last_with p xs) [ none ↦ none | some y ↦ some (if q y then f y else y) ]
unfolding last_with update_rows
last_with-update_rows p q f h [] = refl
last_with-update_rows p q f h (x ∷ xs) =
    ground (arith, last_with-update_rows p q f h xs, h x, Bool-cases (q x), Bool-cases (p x))

-- The current vote, and the current election, after an update of the rows.
pub vote-updated :
    (height : Int64) (g : Gov) (v w : Vote)
    → vote_by_height height g ≡ done v g
    → vote_by_height height
        (record g { votes = update_rows (λ r. r.row_id == v.row_id) (closed_row w) g.votes })
      ≡ done
          (closed_row w v)
          (record g { votes = update_rows (λ r. r.row_id == v.row_id) (closed_row w) g.votes })
unfolding vote_by_height
vote-updated height g v w e =
    let test : Vote → Bool = λ r. not (lt64 height r.start_height) in
    let found = need-eq-done GovError.no_vote (last_with test g.votes) g g e in
    let now =
      last_with-update_rows test (λ r. r.row_id == v.row_id) (closed_row w) (closed-start height w)
        g.votes in
    rw (now, found.0) (ground arith)

last_with-holds :
    {A : Type 0} (p : A → Bool) (xs : List A) (a : A) → last_with p xs ≡ some a → p a ≡ true
unfolding last_with
last_with-holds p [] a e = absurd (ground (arith, e))
last_with-holds p (x ∷ xs) a e = elim (Option-cases (last_with p xs)) [
  | inl out ↦ elim (Bool-cases (p x)) [
    | inl here ↦ subst (λ y. p y ≡ true) (ground (arith, e, out, here)) here
    | inr not_here ↦ absurd (ground (arith, e, out, not_here))
  ]
  | inr (y, later) ↦ last_with-holds p xs a (later ∙ ground (arith, e, later))
]

-- Rows that are replaced by one that the lookup takes.
replaced_none :
    {A : Type 0} (p q : A → Bool) (w : A) (xs : List A)
    → p w ≡ true
    → last_with p xs ≡ none
    → (last_with p (update_rows q (λ r. w) xs) ≡ none)
      ⊎ (last_with p (update_rows q (λ r. w) xs) ≡ some w)
unfolding last_with update_rows
replaced_none p q w [] h e = inl refl
replaced_none p q w (x ∷ xs) h e = elim (Option-cases (last_with p xs)) [
  | inr (y, later) ↦ absurd (ground (arith, e, later))
  | inl out ↦ elim (replaced_none p q w xs h out) [
    | inr new ↦ inr (rw new refl)
    | inl old ↦ elim (Bool-cases (q x)) [
      | inl yes_q ↦ inr (rw (old, yes_q, h) refl)
      | inr no_q ↦ inl (ground (arith, e, out, old, no_q))
    ]
  ]
]

replaced_some :
    {A : Type 0} (p q : A → Bool) (w : A) (xs : List A) (a : A)
    → p w ≡ true
    → q a ≡ true
    → last_with p xs ≡ some a
    → last_with p (update_rows q (λ r. w) xs) ≡ some w
unfolding last_with update_rows
replaced_some p q w [] a h k e = absurd (ground (arith, e))
replaced_some p q w (x ∷ xs) a h k e = elim (Option-cases (last_with p xs)) [
  | inr (y, later) ↦ rw (replaced_some p q w xs a h k (later ∙ ground (arith, e, later))) refl
  | inl out ↦
      let same : x ≡ a = elim (Bool-cases (p x)) [
        | inl here ↦ ground (arith, e, out, here)
        | inr not_here ↦ absurd (ground (arith, e, out, not_here))
      ] in
      let hit : q x ≡ true = ap q same ∙ k in
      elim (replaced_none p q w xs h out) [
        | inr new ↦ rw new refl
        | inl old ↦ rw (old, hit, h) refl
      ]
]

pub election-updated :
    (height : Int64) (g : Gov) (e w : Election)
    → election_by_height height g ≡ done e g
    → w.start_height ≡ e.start_height
    → election_by_height height
        (record g { elections = update_rows (λ r. r.row_id == e.row_id) (λ r. w) g.elections })
      ≡ done w
          (record g { elections = update_rows (λ r. r.row_id == e.row_id) (λ r. w) g.elections })
unfolding election_by_height
election-updated height g e w f h =
    let test : Election → Bool = λ r. not (lt64 height r.start_height) in
    let found = need-eq-done GovError.no_election (last_with test g.elections) g g f in
    let fits : test w ≡ true =
      ap (λ (n : Int64). not (lt64 height n)) h ∙ last_with-holds test g.elections e found.0 in
    rw (replaced_some test (λ r. r.row_id == e.row_id) w g.elections e fits (ground arith) found.0)
      refl
