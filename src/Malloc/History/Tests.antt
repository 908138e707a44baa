-- ===== src/Malloc/History/Tests.antt =====
-- A history of a heap: a block is given out, written in, freed, and given out again.
use linux_programming_interf.Common.{ℕ, ◌+◌, ◌≡◌, ◌≤◌, ◌⊎◌, refl, inl, inr, List, [], ◌∷◌, arith}
use linux_programming_interf.Malloc.Machine.{Ptr, header_size, Sbrk, Heap, Run, ok, write}
use linux_programming_interf.Malloc.{po_malloc, po_free}
use linux_programming_interf.Malloc.History.{History, begins, allocates, frees, fills, Sound}
use linux_programming_interf.Malloc.History.Safe.{Fails, History-Sound, po_malloc-History}

-- A kernel that always raises the break.
abbrev growing : Sbrk
growing = record {
  State = ℕ;
  break = λ s. s;
  call = λ n s. (s, s + n);
  call_lem = λ n s. inl (refl, refl);
}

abbrev empty : Heap ℕ
empty = record {
  header = λ a. record { block_length = 0; prev_free_chunk = 0; next_free_chunk = 0 };
  free_ll_head = 0;
  kernel = 1000;
}

abbrev heap_of : {A : Type 0} → Run ℕ A → Heap ℕ
heap_of r = elim r [ ok _ h ↦ h | _ ↦ empty ]

unfoldable given : Heap ℕ
unfolding po_malloc
given = heap_of (po_malloc growing 2 100 empty)

-- The program writes what reads as a header into the memory at 1024.
unfoldable written : Heap ℕ
unfolding given
written = record given {
  header =
      write given.header 1050
        (record { block_length = 77; prev_free_chunk = 5; next_free_chunk = 6 });
}

unfoldable freed : Heap ℕ
unfolding written po_free
freed = heap_of (po_free 1024 written)

started : History growing empty []
started = begins refl (omega arith) (omega arith)

in_use : History growing written (1000 ∷ [])
unfolding written given po_malloc
in_use =
    let one : History growing given (1000 ∷ []) =
      allocates 2 100 1000 started (omega arith) (omega arith) (inl refl) refl in
    fills 1000 written.header one refl (λ c out. ground arith)

past : History growing freed []
unfolding freed written given po_malloc po_free
past = frees 1000 [] [] in_use refl refl

History-Sound_example : (free : List Ptr) × Sound growing written free (1000 ∷ [])
History-Sound_example = History-Sound growing written (1000 ∷ []) in_use

po_malloc-History_example :
    ((b : Ptr) × (h' : Heap ℕ) × (po_malloc growing 2 90 freed ≡ ok (b + header_size) h')
      × (90 ≤ (h'.header b).block_length)
      × History growing h' (b ∷ []))
    ⊎ Fails growing freed 90 [] 2
unfolding freed written given po_malloc po_free
po_malloc-History_example =
    po_malloc-History growing freed [] 2 90 past (omega arith) (omega arith) (inr (omega arith))
