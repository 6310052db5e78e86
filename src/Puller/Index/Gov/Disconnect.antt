-- ===== src/Puller/Index/Gov/Disconnect.antt =====
-- puller/index/govindex.go: what `DeleteBlock` leaves of a block whose ballots were counted.
use tezos_index.Common.{false, ◌≡◌, List, [], ◌∷◌, ◌==◌}
use tezos_index.Common.Int64.{Int64}
use tezos_index.Models.Gov.{Vote}
use tezos_index.Puller.Index.Gov.Defs.{Gov}

-- No vote of the list starts at the height.
abbrev pub NoneStarts : Int64 → List Vote → Type 0
NoneStarts height [] = Unit {0}
NoneStarts height (v ∷ vs) = ((v.start_height == height) ≡ false) × NoneStarts height vs
