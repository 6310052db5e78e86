-- ===== src/Utils/MinMax.antt =====
-- utils/minmax.go: minima and maxima of int64 values.
use tezos_index.Common.{List, [], ◌∷◌, ◌==◌, if◌then◌else◌}
use tezos_index.Common.Int64.{Int64, lt64}

-- `Max64`
unfoldable pub max64 : Int64 → Int64 → Int64
max64 x y = if lt64 x y then y else x

-- `Min64`
unfoldable pub min64 : Int64 → Int64 → Int64
min64 x y = if lt64 y x then y else x

-- The loop of `Max64N`: `n` is the largest value so far.
unfoldable pub max64_loop : Int64 → List Int64 → Int64
max64_loop n [] = n
max64_loop n (v ∷ vs) = max64_loop (if lt64 n v then v else n) vs

-- `Max64N`
unfoldable pub max64_n : List Int64 → Int64
unfolding max64_loop
max64_n [] = 0
max64_n (x ∷ xs) = max64_loop x xs

-- The loop of `Min64N`.
unfoldable pub min64_loop : Int64 → List Int64 → Int64
min64_loop n [] = n
min64_loop n (v ∷ vs) = min64_loop (if lt64 v n then v else n) vs

-- `Min64N`
unfoldable pub min64_n : List Int64 → Int64
unfolding min64_loop
min64_n [] = 0
min64_n (x ∷ xs) = min64_loop x xs

-- The loop of `NonZeroMin64`: `m` is 0 until a value other than 0 is seen.
unfoldable pub nonzero_min64_loop : Int64 → List Int64 → Int64
unfolding min64
nonzero_min64_loop m [] = m
nonzero_min64_loop m (v ∷ vs) =
    nonzero_min64_loop (if v == 0 then m else (if m == 0 then v else min64 m v)) vs

-- `NonZeroMin64`
unfoldable pub nonzero_min64 : List Int64 → Int64
unfolding nonzero_min64_loop
nonzero_min64 xs = nonzero_min64_loop 0 xs
