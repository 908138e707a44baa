-- ===== src/FreeSbrk.antt =====
-- 07-memory-allocation/free_and_sbrk.c, over malloc(), free() and sbrk(). A number in the output
-- stands for its text.
pub mod Trace
pub mod Laws
pub mod Whole
mod Tests
use linux_programming_interf.Common.{
  ℕ, zero, suc, ◌+◌, ◌-◌, ◌^◌, ◌%◌, Bool, true, false, ◌||◌, Option, none, some, List, [], ◌∷◌,
  ◌++◌, CString, codes, str_eq, ltb, leb, if◌then◌else◌,
}
use linux_programming_interf.Common.Int.{ℤ, pos, negsuc}
use linux_programming_interf.Common.Outcome.{Run, ok, fault, out_of_fuel}
use linux_programming_interf.Common.Output.{Output, text, str, num}

pub record Allocator : Type 1 where
  pub World : Type 0
  pub malloc : ℕ → World → Option ℕ × World
  pub free : ℕ → World → World
  -- sbrk(0)
  pub sbrk_now : World → ℕ
  pub print : Output → World → World

abbrev pub max_allocs : ℕ
max_allocs = 1000000

-- a < b
abbrev pub less : ℤ → ℤ → Bool
less (pos a) (pos b) = ltb a b
less (pos a) (negsuc b) = false
less (negsuc a) (pos b) = true
less (negsuc a) (negsuc b) = ltb b a

abbrev pub difference : ℕ → ℕ → ℤ
difference a b = if leb b a then pos (a - b) else negsuc (b - a - 1)

abbrev pub total : ℤ → ℤ → ℤ
total (pos a) (pos b) = pos (a + b)
total (pos a) (negsuc b) = difference a (suc b)
total (negsuc a) (pos b) = difference b (suc a)
total (negsuc a) (negsuc b) = negsuc (suc (a + b))

-- A result of int arithmetic; `none` is an overflow.
abbrev pub in_int : ℤ → Option ℤ
in_int (pos n) = if ltb n (2 ^ 31) then some (pos n) else none
in_int (negsuc n) = if ltb n (2 ^ 31) then some (negsuc n) else none

-- a + b
abbrev pub sum : ℤ → ℤ → Option ℤ
sum a b = in_int (total a b)

-- "%d"
abbrev pub int : ℤ → Output
int (pos n) = num n ∷ []
int (negsuc n) = text "-" ∷ num (suc n) ∷ []

-- The size_t that an int becomes.
abbrev pub as_size : ℤ → ℕ
as_size (pos n) = n
as_size (negsuc n) = 2 ^ 64 - suc n

abbrev pub rounds : ℤ → ℕ
rounds (pos n) = n
rounds (negsuc n) = 0

unfoldable pub element : List ℕ → ℕ → Option ℕ
element [] i = none
element (p ∷ ptr) zero = some p
element (p ∷ ptr) (suc i) = element ptr i

pub record Arguments : Type 0 where
  pub num_allocs : ℤ
  pub block_size : ℤ
  pub free_step : ℤ
  pub free_min : ℤ
  pub free_max : ℤ

pub data Parsed : Type 0 where
  exits : Output → Parsed
  returns : Arguments → Parsed

-- The optional arguments.
abbrev pub optional : (CString → ℤ) → ℤ → ℤ → List CString → Arguments
optional atoi n size [] = record {
  num_allocs = n;
  block_size = size;
  free_step = pos 1;
  free_min = pos 1;
  free_max = n;
}
optional atoi n size (step ∷ []) = record {
  num_allocs = n;
  block_size = size;
  free_step = atoi step;
  free_min = pos 1;
  free_max = n;
}
optional atoi n size (step ∷ least ∷ []) = record {
  num_allocs = n;
  block_size = size;
  free_step = atoi step;
  free_min = atoi least;
  free_max = n;
}
optional atoi n size (step ∷ least ∷ most ∷ _) = record {
  num_allocs = n;
  block_size = size;
  free_step = atoi step;
  free_min = atoi least;
  free_max = atoi most;
}

abbrev pub usage : CString → Output
usage program = str program ∷ text " num-allocs block-size [step [min [max]]]\n" ∷ []

-- From the test of `argc` to that of `freeMax`; `atoi` is the library's.
unfoldable pub parse : (CString → ℤ) → List CString → Parsed
parse atoi (program ∷ a ∷ b ∷ more) =
    if str_eq a (codes "--help")
    then exits (usage program)
    else (if less (pos max_allocs) (atoi a)
        then exits (text "num-allocs > " ∷ num max_allocs ∷ text "\n" ∷ [])
        else (let args = optional atoi (atoi a) (atoi b) more in
            if less args.num_allocs args.free_max
            then exits (text "free-max > num-allocs\n" ∷ [])
            else returns args))
parse atoi (program ∷ _) = exits (usage program)
parse atoi [] = exits (usage [])

abbrev pub break_line : ℕ → Output
break_line b = text "Program break is now:           " ∷ num b ∷ text "\n" ∷ []

abbrev pub freeing : Arguments → Output
freeing args =
    text "Freeing blocks from "
    ∷ (int args.free_min
        ++ (text " to "
            ∷ (int args.free_max
                ++ (text " in steps of " ∷ (int args.free_step ++ (text "\n" ∷ []))))))

module _ (A : Allocator) where
  open A use {World, malloc, free, sbrk_now, print}

  -- The lines in front of the first loop.
  abbrev pub announce : Arguments → World → World
  announce args w =
      print
        (text "Allocating "
          ∷ (int args.num_allocs ++ (text "*" ∷ (int args.block_size ++ (text " bytes\n" ∷ [])))))
        (print (text "Initial program break:          " ∷ num (sbrk_now w) ∷ text "\n" ∷ []) w)

  -- The first loop for a number of rounds: the elements of `ptr`, or `none` where malloc() fails.
  unfoldable pub allocate : ℕ → ℕ → World → Option (List ℕ) × World
  allocate zero size w = (some [], w)
  allocate (suc n) size w =
      let (block, w') = malloc size w in
      elim block [
        | none ↦ (none, print (text "malloc" ∷ []) w')
        | some p ↦
            (let (rest, last) = allocate n size w' in
              elim rest [ none ↦ (none, last) | some ptr ↦ (some (p ∷ ptr), last) ])
      ]

  -- The second loop from `j` on, with fuel for its rounds. An index outside of the elements that are
  -- set is a fault, and so is an int that overflows.
  unfoldable pub free_from : ℕ → ℤ → ℤ → ℤ → List ℕ → World → Run World
  unfolding element
  free_from zero j free_max step ptr w = out_of_fuel
  free_from (suc fuel) j free_max step ptr w = elim (less j free_max) [
    | false ↦ ok w
    | true ↦ elim j [
      | negsuc n ↦ fault
      | pos n ↦ elim (element ptr n) [
        | none ↦ fault
        | some p ↦ elim (sum (pos n) step) [
          | none ↦ fault
          | some j' ↦ free_from fuel j' free_max step ptr (free p w)
        ]
      ]
    ]
  ]

  -- What follows the first loop: the exit status is 0.
  unfoldable pub free_blocks : ℕ → Arguments → List ℕ → World → Run (ℕ × World)
  unfolding free_from
  free_blocks fuel args ptr w =
      let w1 = print (freeing args) (print (break_line (sbrk_now w)) w) in
      elim (sum args.free_min (negsuc 0)) [
        | none ↦ fault
        | some start ↦ elim (free_from fuel start args.free_max args.free_step ptr w1) [
          | out_of_fuel ↦ out_of_fuel
          | fault ↦ fault
          | ok w2 ↦ ok (
            0,
            print (text "After free(), program break is: " ∷ num (sbrk_now w2) ∷ text "\n" ∷ []) w2,
          )
        ]
      ]

  unfoldable pub main : ℕ → (CString → ℤ) → List CString → World → Run (ℕ × World)
  unfolding parse allocate free_blocks
  main fuel atoi argv w0 =
      let w = print (text "\n" ∷ []) w0 in
      elim (parse atoi argv) [
        | exits out ↦ ok (1, print out w)
        | returns args ↦
            (let (allocated, w1) =
                allocate (rounds args.num_allocs) (as_size args.block_size) (announce args w) in
              elim allocated [ none ↦ ok (0, w1) | some ptr ↦ free_blocks fuel args ptr w1 ])
      ]
