-- ===== src/Benchmark/Tests.antt =====
-- Runs of 14-file-systems/benchmarkwrites.c.
use linux_programming_interf.Common.{
  count, CString, Bool, true, false, ◌||◌, str_eq, codes, get_or, ap, map, if◌then◌else◌, ℕ, ◌≡◌,
  refl, some, List, [], ◌∷◌, length, arith,
}
use linux_programming_interf.Benchmark.Shuffle.{rand_max, shuffle}
use linux_programming_interf.Benchmark.Permutes.{shuffle-count}
use linux_programming_interf.Benchmark.{Calls, numbers, prepare, runbenchmark}
use linux_programming_interf.Benchmark.Cleaned.{IsDirectory, among}
use linux_programming_interf.Benchmark.Whole.{allocated, options, runbenchmark_cleaned}

abbrev rand : ℕ → ℕ
rand m = rand_max

abbrev four : List ℕ
four = 0 ∷ 1 ∷ 2 ∷ 3 ∷ []

rotated : shuffle rand four ≡ some (3 ∷ 0 ∷ 1 ∷ 2 ∷ [])
unfolding shuffle
rotated = refl

shuffle-count_example :
    (ys : List ℕ) × (shuffle rand four ≡ some ys)
    × (length ys ≡ 4)
    × ((x : ℕ) → count x ys ≡ count x four)
shuffle-count_example = shuffle-count rand four (λ m. omega arith)

-- A directory in memory: which paths there are.
abbrev Disk : Type 0
Disk = CString → Bool

abbrev calls : Calls
calls = record {
  World = Disk;
  malloc = λ n w. (true, w);
  is_dir = λ p w. (some true, w);
  mkdir = λ p mode w. (true, w);
  open_file = λ path flags mode w. (some 3, λ p. str_eq p path || w p);
  write = λ fd bs w. w;
  close = λ fd w. w;
  unlink = λ path w. (w path, λ p. if str_eq p path then false else w p);
  gettimeofday = λ w. (0, w);
  perror = λ w. w;
  print = λ o w. w;
}

abbrev calls-IsDirectory : IsDirectory calls
calls-IsDirectory = record {
  exists = λ w p. w p;
  open_done = λ path flags mode w. (3, refl);
  open_exists = λ path p mode w. refl;
  write_exists = λ fd bs w p. refl;
  close_exists = λ fd w p. refl;
  unlink_done = λ path w. refl;
  unlink_exists = λ path p w. refl;
  time_exists = λ w p. refl;
  print_exists = λ o w p. refl;
}

-- A number as a path of one byte.
abbrev one_byte : CString → ℕ → CString
one_byte dirname n = n ∷ dirname

one_byte_injective : (x y : ℕ) → one_byte (codes "d") x ≡ one_byte (codes "d") y → x ≡ y
one_byte_injective x y e = ap (λ l. get_or l 0 0) e

abbrev disk : Disk
disk p = true

prepared : (prepare calls one_byte (codes "d") (allocated calls 3 disk)).0 ≡ true
unfolding prepare
prepared = refl

runbenchmark_cleaned_example :
    (w' : Disk) × (runbenchmark calls one_byte rand (options 3 true) (codes "d") disk
      ≡ some (0, w'))
    × ((p : CString)
        → w' p ≡ (
            if among p (map (one_byte (codes "d")) (numbers 0 3))
            then false
            else (prepare calls one_byte (codes "d") (allocated calls 3 disk)).1 p))
runbenchmark_cleaned_example =
    runbenchmark_cleaned calls calls-IsDirectory one_byte (codes "d") rand 3 true disk
      one_byte_injective (λ m. omega arith) refl refl prepared
