-- ===== src/Puller/Index/Gov/Quorum.antt =====
-- puller/index/govindex.go: `quorumByHeight`, the quorum of the next vote.
use mathlib.Core.List.{reverse}
use tezos_index.Common.{Bool, true, false, List, [], ◌∷◌, Option, none, some, ◌==◌, if◌then◌else◌}
use tezos_index.Common.Int64.{Int64, add64, sub64, mul64, div64, lt64}
use tezos_index.Chain.Params.{Params}
use tezos_index.Chain.Voting.{VotingPeriodKind}
use tezos_index.Models.Gov.{Vote}
use tezos_index.Puller.Index.Gov.Defs.{Gov, rows_where}

-- The votes that have a quorum of their own turnout.
abbrev pub is_poll : VotingPeriodKind → Bool
is_poll VotingPeriodKind.testing_vote = true
is_poll VotingPeriodKind.promotion_vote = true
is_poll _ = false

-- The loop over the votes: every poll overwrites what the one before it left.
unfoldable pub last_poll : Option Vote → List Vote → Option Vote
last_poll found [] = found
last_poll found (v ∷ vs) = last_poll (if is_poll v.voting_period_kind then some v else found) vs

-- 80 parts of the one and 20 of the other.
unfoldable pub smoothed : Int64 → Int64 → Int64
smoothed a b = div64 (add64 (mul64 8 a) (mul64 2 b)) 10

-- `q_min + participation_ema * (q_max - q_min)`
unfoldable pub capped : Params → Int64 → Int64
capped p ema = add64 p.quorum_min (div64 (mul64 ema (sub64 p.quorum_max p.quorum_min)) 10000)

-- The turnout from which the next quorum is taken, since Babylon.
unfoldable pub next_ema : Params → Vote → Int64
unfolding smoothed
next_ema p v =
    if v.turnout_ema == 0
    then (if v.turnout_pct == 0 then p.quorum_max else smoothed v.quorum_pct v.turnout_pct)
    else smoothed v.turnout_ema v.turnout_pct

-- The quorum and the average turnout that go with the vote that the loop found.
unfoldable pub next_quorum : Params → Option Vote → Int64 × Int64
unfolding capped next_ema smoothed
next_quorum p none = if lt64 p.version 5 then (8000, 0) else (capped p p.quorum_max, p.quorum_max)
next_quorum p (some v) =
    if lt64 p.version 5
    then (smoothed v.quorum_pct v.turnout_pct, 0)
    else (capped p (next_ema p v), next_ema p v)

-- `quorumByHeight`: the rows come with the newest first.
unfoldable pub quorum_by_height : Params → Int64 → Gov → Int64 × Int64
unfolding last_poll next_quorum rows_where
quorum_by_height p height g =
    next_quorum p (last_poll none (reverse (rows_where (λ v. lt64 v.start_height height) g.votes)))
