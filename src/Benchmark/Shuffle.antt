-- ===== src/Benchmark/Shuffle.antt =====
-- shuffle() of 14-file-systems/benchmarkwrites.c.
use linux_programming_interf.Common.{
  ℕ, zero, suc, ◌+◌, ◌-◌, ◌/◌, ◌^◌, Option, some, List, length, get_elem?, set,
}
use linux_programming_interf.Common.Options.{◌>>=◌}

abbrev pub rand_max : ℕ
rand_max = 2 ^ 31 - 1

-- The place that is swapped with the place `i` of `n`, for the result `r` of rand().
abbrev pub place : ℕ → ℕ → ℕ → ℕ
place r i n = i + r / (rand_max / (n - i) + 1)

-- `none` is an access out of bounds.
unfoldable pub swap : ℕ → ℕ → List ℕ → Option (List ℕ)
swap i j array = do t ← get_elem? array j; a ← get_elem? array i; some (set (set array j a) i t)

-- The loop for `k` rounds from the place `i` on.
unfoldable pub shuffle_from : (ℕ → ℕ) → ℕ → ℕ → ℕ → List ℕ → Option (List ℕ)
unfolding swap
shuffle_from rand n zero i array = some array
shuffle_from rand n (suc k) i array = do
  array' ← swap i (place (rand i) i n) array
  shuffle_from rand n k (suc i) array'

-- For an array of any length: `n - 1` rounds, and none for `n` up to 1.
unfoldable pub shuffle : (ℕ → ℕ) → List ℕ → Option (List ℕ)
unfolding shuffle_from
shuffle rand array = shuffle_from rand (length array) (length array - 1) 0 array
