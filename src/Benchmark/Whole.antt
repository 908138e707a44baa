-- ===== src/Benchmark/Whole.antt =====
-- A whole run of 14-file-systems/benchmarkwrites.c.
use linux_programming_interf.Common.{
  ℕ, ◌*◌, ◌≤◌, ◌≡◌, refl, ap, Bool, true, false, some, inl, inr, List, CString, Bool-cases, map,
  count, if◌then◌else◌,
}
use linux_programming_interf.Common.Int.{pos}
use linux_programming_interf.Benchmark.{
  Calls, Options, numbers, shuffle_numbers, prepare, runbenchmark,
}
use linux_programming_interf.Benchmark.Shuffle.{rand_max}
use linux_programming_interf.Benchmark.Permutes.{shuffle-count}
use linux_programming_interf.Benchmark.Cleaned.{IsDirectory, among, measure_cleaned}

-- The state behind the two calls of malloc().
abbrev pub allocated : (C : Calls) → ℕ → C.World → C.World
allocated C n w = (C.malloc (4 * n) (C.malloc (4 * n) w).1).1

-- The options for a number of files that is not negative.
abbrev pub options : ℕ → Bool → Options
options n randomize = record { number_files = pos n; randomize = randomize }

-- The order in which the files are created.
order :
    (rand : ℕ → ℕ) (o : Options) (n : ℕ)
    → ((m : ℕ) → rand m ≤ rand_max)
    → (xs : List ℕ) × ((if o.randomize then shuffle_numbers rand (pos n) else some (numbers 0 n))
        ≡ some xs)
      × ((z : ℕ) → count z xs ≡ count z (numbers 0 n))
unfolding shuffle_numbers
order rand o n range = elim (Bool-cases o.randomize) [
  | inr in_order ↦ (numbers 0 n, rw in_order refl, λ z. refl)
  | inl shuffled ↦
      let (xs, done, long, same) = shuffle-count rand (numbers 0 n) range in
      (xs, rw shuffled done, same)
]

-- When the number of files is not negative, no call fails, no two numbers have one path, and rand() keeps to its range, a run with or
-- without -r returns 0, and behind it none of the paths of its numbers is there, whatever the order
-- in which they were created, and all other paths are as they were when the directory was ready.
pub runbenchmark_cleaned :
    (C : Calls) (D : IsDirectory C) (filepath : CString → ℕ → CString) (dirname : CString)
    (rand : ℕ → ℕ) (n : ℕ) (randomize : Bool) (w : C.World)
    → ((x y : ℕ) → filepath dirname x ≡ filepath dirname y → x ≡ y)
    → ((m : ℕ) → rand m ≤ rand_max)
    → (C.malloc (4 * n) w).0 ≡ true
    → (C.malloc (4 * n) (C.malloc (4 * n) w).1).0 ≡ true
    → (prepare C filepath dirname (allocated C n w)).0 ≡ true
    → (w' : C.World) × (runbenchmark C filepath rand (options n randomize) dirname w ≡ some (0, w'))
      × ((p : CString)
          → D.exists w' p ≡ (
              if among p (map (filepath dirname) (numbers 0 n))
              then false
              else D.exists (prepare C filepath dirname (allocated C n w)).1 p))
unfolding runbenchmark
runbenchmark_cleaned C D filepath dirname rand n randomize w injective range first second ready =
    let w3 = (prepare C filepath dirname (allocated C n w)).1 in
    let (xs, chosen, same) = order rand (options n randomize) n range in
    let (w', run, left) =
      measure_cleaned C D filepath dirname injective (options n randomize) n xs w3 same in
    (w', rw (first, second, ready, chosen, runbenchmark) (ap some run), left)
