-- ===== src/FreeSbrk/Trace.antt =====
-- 07-memory-allocation/free_and_sbrk_7_1.c, which is free_and_sbrk.c with a line for each call of
-- malloc().
use linux_programming_interf.Common.{
  ℕ, zero, suc, Option, none, some, List, [], ◌∷◌, CString, ◌==◌, if◌then◌else◌,
}
use linux_programming_interf.Common.Int.{ℤ}
use linux_programming_interf.Common.Outcome.{Run, ok}
use linux_programming_interf.Common.Output.{Output, text, num}
use linux_programming_interf.FreeSbrk.{
  Allocator, exits, returns, parse, announce, rounds, as_size, free_blocks,
}

-- The line for a program break and the one in front of it.
abbrev pub trace : ℕ → ℕ → Output
trace current_sbrk previous_sbrk =
    if current_sbrk == previous_sbrk
    then text ">>> " ∷ num current_sbrk ∷ text "\n" ∷ []
    else text "\u{1b}[0;34m*** " ∷ num current_sbrk ∷ text "\u{1b}[0m\n" ∷ []

module _ (A : Allocator) where
  open A use {World, malloc, sbrk_now, print}

  -- The first loop for a number of rounds, with the program break of the round before.
  unfoldable pub allocate : ℕ → ℕ → ℕ → World → Option (List ℕ) × World
  allocate zero size previous_sbrk w = (some [], w)
  allocate (suc n) size previous_sbrk w =
      let current_sbrk = sbrk_now w in
      let (block, w') = malloc size w in
      let w1 = print (trace current_sbrk previous_sbrk) w' in
      elim block [
        | none ↦ (none, print (text "malloc" ∷ []) w1)
        | some p ↦
            (let (rest, last) = allocate n size current_sbrk w1 in
              elim rest [ none ↦ (none, last) | some ptr ↦ (some (p ∷ ptr), last) ])
      ]

  unfoldable pub main : ℕ → (CString → ℤ) → List CString → World → Run (ℕ × World)
  unfolding allocate
  main fuel atoi argv w0 =
      let w = print (text "\n" ∷ []) w0 in
      elim (parse atoi argv) [
        | exits out ↦ ok (1, print out w)
        | returns args ↦
            (let (allocated, w1) =
                allocate (rounds args.num_allocs) (as_size args.block_size) 0 (announce A args w) in
              elim allocated [ none ↦ ok (0, w1) | some ptr ↦ free_blocks A fuel args ptr w1 ])
      ]
