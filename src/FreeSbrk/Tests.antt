-- ===== src/FreeSbrk/Tests.antt =====
-- Runs of 07-memory-allocation/free_and_sbrk.c.
use linux_programming_interf.Common.{ℕ, ◌+◌, ◌-◌, ◌≡◌, refl, some, List, [], ◌∷◌, CString, codes}
use linux_programming_interf.Common.Int.{ℤ, pos}
use linux_programming_interf.Common.Outcome.{ok}
use linux_programming_interf.FreeSbrk.{Allocator, Arguments, element, free_from}

-- The address of the next block, and the blocks that were freed, the last one first.
abbrev World : Type 0
World = ℕ × List ℕ

abbrev calls : Allocator
calls = record {
  World = World;
  malloc = λ n w. (some w.0, (w.0 + 10, w.1));
  free = λ p w. (w.0, p ∷ w.1);
  sbrk_now = λ w. 0;
  print = λ o w. w;
}

abbrev digit : CString → ℤ
digit [] = pos 0
digit (c ∷ more) = pos (c - b'0')

-- Five blocks, of which the second and the fourth are to be freed.
abbrev argv : List CString
argv = codes "p" ∷ codes "5" ∷ codes "9" ∷ codes "2" ∷ codes "2" ∷ codes "4" ∷ []

abbrev args : Arguments
args = record {
  num_allocs = pos 5;
  block_size = pos 9;
  free_step = pos 2;
  free_min = pos 2;
  free_max = pos 4;
}

abbrev fresh : World
fresh = (10, [])

every_other :
    free_from calls 4 (pos 1) (pos 4) (pos 2) (10 ∷ 20 ∷ 30 ∷ 40 ∷ 50 ∷ []) fresh
    ≡ ok (10, 40 ∷ 20 ∷ [])
unfolding free_from element
every_other = refl
