-- ===== src/Benchmark.antt =====
-- 14-file-systems/benchmarkwrites.c. What getopt() returns is a list of option characters with their
-- arguments; rand(), sprintf() and the calls on files are parameters.
pub mod Shuffle
pub mod Permutes
pub mod Cleaned
pub mod Whole
mod Tests
use linux_programming_interf.Common.{
  ℕ, zero, suc, ◌*◌, ◌-◌, ◌^◌, Bool, true, false, Option, none, some, List, [], ◌∷◌, CString, ◌==◌,
  if◌then◌else◌,
}
use linux_programming_interf.Common.Int.{ℤ, pos, negsuc}
use linux_programming_interf.Common.Output.{Output, text, str, num}
use Shuffle.{shuffle}

-- The static variables that the options set.
pub record Options : Type 0 where
  pub number_files : ℤ
  pub randomize : Bool

abbrev pub default_options : Options
default_options = record { number_files = pos 10000; randomize = false }

-- The loop of `parse_options`; `none` is the return of 1 on another option character.
unfoldable pub parse_loop : (CString → ℤ) → List (ℕ × CString) → Options → Option Options
parse_loop atoi [] o = some o
parse_loop atoi ((c, optarg) ∷ rest) o =
    if c == b'n'
    then parse_loop atoi rest (record o { number_files = atoi optarg })
    else if c == b'r'
    then parse_loop atoi rest (record o { randomize = true })
    else none

-- Behind the options there is one argument, the name of the directory.
unfoldable pub parse_options :
    (CString → ℤ) → List (ℕ × CString) → List CString → Option (Options × CString)
unfolding parse_loop
parse_options atoi opts (dirname ∷ []) = elim (parse_loop atoi opts default_options) [
  | none ↦ none
  | some o ↦ some (o, dirname)
]
parse_options atoi opts _ = none

abbrev pub usage : CString → Output
usage program =
    text "Usage: "
    ∷ str program
    ∷ text " [options] <directory>\n"
    ∷ text "Options:\n"
    ∷ text "  -n <number_files> (Set the number of files to use in the test)\n"
    ∷ text "  -r                (Create random files and delete in a different order)\n"
    ∷ []

-- `is_dir` is S_ISDIR of what stat() gives, if it succeeds; `true` stands for success.
pub record Calls : Type 1 where
  pub World : Type 0
  pub malloc : ℕ → World → Bool × World
  pub is_dir : CString → World → Option Bool × World
  pub mkdir : CString → ℕ → World → Bool × World
  pub open_file : CString → ℕ → ℕ → World → Option ℕ × World
  pub write : ℕ → CString → World → World
  pub close : ℕ → World → World
  pub unlink : CString → World → Bool × World
  -- In microseconds.
  pub gettimeofday : World → ℕ × World
  pub perror : World → World
  pub print : Output → World → World

-- "z"
abbrev pub file_contents : CString
file_contents = b'z' ∷ []

abbrev pub mode_777 : ℕ
mode_777 = 0o777

-- O_CREAT
abbrev pub create_flags : ℕ
create_flags = 0o100

-- `array[i] = i` for `n` places from `i` on.
unfoldable pub numbers : ℕ → ℕ → List ℕ
numbers i zero = []
numbers i (suc n) = i ∷ numbers (suc i) n

-- How often `i < number_files` holds, from 0.
abbrev pub rounds : ℤ → ℕ
rounds (pos n) = n
rounds (negsuc n) = 0

-- sizeof(int) * number_files, in size_t.
abbrev pub array_size : ℤ → ℕ
array_size (pos n) = 4 * n
array_size (negsuc n) = 2 ^ 64 - 4 * suc n

-- What %d prints for an int: the sign, and the digits of a natural number.
abbrev pub decimal_sign : ℤ → CString
decimal_sign (pos n) = []
decimal_sign (negsuc n) = b'-' ∷ []

abbrev pub absolute : ℤ → ℕ
absolute (pos n) = n
absolute (negsuc n) = suc n

-- The call of `shuffle`, which takes the number as a size_t. Of a negative one that is more than any
-- array has elements, so that the loop leaves the array.
unfoldable pub shuffle_numbers : (ℕ → ℕ) → ℤ → Option (List ℕ)
unfolding numbers
shuffle_numbers rand (pos n) = shuffle rand (numbers 0 n)
shuffle_numbers rand (negsuc n) = none

module _ (C : Calls) (filepath : CString → ℕ → CString) where
  open C use {
    World, malloc, is_dir, mkdir, open_file, write, close, unlink, gettimeofday, perror, print,
  }

  -- The loops that create and delete the files; `false` is the return of 1.
  unfoldable pub create_files : CString → List ℕ → World → Bool × World
  create_files dirname [] w = (true, w)
  create_files dirname (number ∷ rest) w0 =
      let path = filepath dirname number in
      let (fd, w1) = open_file path create_flags mode_777 w0 in
      elim fd [
        | none ↦ (
          false,
          perror (print (text "Unable to open file \"" ∷ str path ∷ text "\" - " ∷ []) w1),
        )
        | some fd' ↦ create_files dirname rest (close fd' (write fd' file_contents w1))
      ]

  unfoldable pub delete_files : CString → List ℕ → World → Bool × World
  delete_files dirname [] w = (true, w)
  delete_files dirname (number ∷ rest) w0 =
      let path = filepath dirname number in
      let (done, w1) = unlink path w0 in
      let further = delete_files dirname rest w1 in
      if done
      then further
      else (false, perror (print (text "Unable to unlink \"" ∷ str path ∷ text "\" - " ∷ []) w1))

  -- The test of the directory, which is made if there is none.
  unfoldable pub prepare : CString → World → Bool × World
  prepare dirname w0 =
      let (found, w1) = is_dir dirname w0 in
      elim found [
        | none ↦
            (let (made, w2) = mkdir dirname mode_777 w1 in
              if made then (true, w2) else (
                false,
                print
                    (text "Unable to make directory "
                      ∷ str dirname
                      ∷ text ", unable to continue\n"
                      ∷ [])
                    w2,
              ))
        | some dir ↦ if dir then (true, w1) else (
          false,
          print
              (text "\""
                ∷ str dirname
                ∷ text "\" exists but is not a directory, unable to continue\n"
                ∷ [])
              w1,
        )
      ]

  -- From the first gettimeofday() to the end, with what the time and the options print.
  unfoldable pub measure : Options → CString → List ℕ → List ℕ → World → ℕ × World
  unfolding create_files delete_files
  measure o dirname file_numbers ordered_file_numbers w0 =
      let (st_time, w1) = gettimeofday w0 in
      let (created, w2) = create_files dirname file_numbers w1 in
      let (deleted, w3) = delete_files dirname ordered_file_numbers w2 in
      let (end_time, w4) = gettimeofday w3 in
      let shown =
        text "== Write/Delete Benchmark ==\nNF = "
        ∷ str (decimal_sign o.number_files)
        ∷ num (absolute o.number_files)
        ∷ text (if o.randomize then "\nrandomized = true\n" else "\nrandomized = false\n")
        ∷ text "time: "
        ∷ num (end_time - st_time)
        ∷ [] in
      if created then (if deleted then (0, print shown w4) else (1, w3)) else (1, w2)

  -- `rand i` is the i-th result of rand(). `none` is an access of `shuffle` out of bounds.
  unfoldable pub runbenchmark : (ℕ → ℕ) → Options → CString → World → Option (ℕ × World)
  unfolding measure prepare numbers shuffle_numbers
  runbenchmark rand o dirname w0 =
      let (first, w1) = malloc (array_size o.number_files) w0 in
      let (second, w2) = malloc (array_size o.number_files) w1 in
      let (ready, w3) = prepare dirname w2 in
      let ordered = numbers 0 (rounds o.number_files) in
      let shuffled = if o.randomize then shuffle_numbers rand o.number_files else some ordered in
      let refused = text "Unable to allocate buffer for numbers\n" ∷ [] in
      if first
      then if second
        then if ready
          then elim shuffled [
            | none ↦ none
            | some file_numbers ↦ some (measure o dirname file_numbers ordered w3)
          ]
          else some (1, w3)
        else some (1, print refused w2)
      else some (1, print refused w1)

  unfoldable pub main :
      (CString → ℤ)
      → (ℕ → ℕ)
      → CString
      → List (ℕ × CString)
      → List CString
      → World
      → Option (ℕ × World)
  unfolding runbenchmark parse_options
  main atoi rand program opts rest w = elim (parse_options atoi opts rest) [
    | none ↦
        some (1, print (usage program) (print (text "Error: Invalid options specified\n" ∷ []) w))
    | some (o, dirname) ↦ runbenchmark rand o dirname w
  ]
