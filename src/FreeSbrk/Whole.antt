-- ===== src/FreeSbrk/Whole.antt =====
-- A run of 07-memory-allocation/free_and_sbrk.c, by the arguments that it is given.
use linux_programming_interf.Common.{◌^◌, ℕ, ◌^◌, Option, List, [], ◌∷◌}
use linux_programming_interf.Common.Output.{text, num}
use linux_programming_interf.FreeSbrk.{
  Allocator, Arguments, announce, allocate, rounds, as_size, freeing, break_line,
}

module _ (A : Allocator) where
  open A use {World, print, sbrk_now}

  -- The world behind the first loop, with what it gives; and behind the lines in front of the second.
  abbrev pub begun : Arguments → World → Option (List ℕ) × World
  begun args w =
      allocate A (rounds args.num_allocs) (as_size args.block_size)
        (announce A args (print (text "\n" ∷ []) w))

  abbrev pub told : Arguments → World → World
  told args w = print (freeing args) (print (break_line (sbrk_now w)) w)

  abbrev pub ended : World → World
  ended w = print (text "After free(), program break is: " ∷ num (sbrk_now w) ∷ text "\n" ∷ []) w
