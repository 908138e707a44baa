-- ===== src/Malloc/Tests.antt =====
-- Runs of 07-memory-allocation/po_malloc_free.c, and its theorems at concrete heaps.
use linux_programming_interf.Common.{
  ℕ, ◌+◌, ◌≡◌, refl, inl, inr, List, [], ◌∷◌, arith, ◌==◌, if◌then◌else◌,
}
use linux_programming_interf.Malloc.Machine.{
  Ptr, null, BlockHeader, Sbrk, Heap, ok, Cmd, pure, ◌>>=◌,
}
use linux_programming_interf.Malloc.FreeList.{IsSpaced, Beside, Nexts, Links}
use linux_programming_interf.Malloc.{ll_remove, po_malloc, po_free}
use linux_programming_interf.Malloc.Unlink.{ll_remove-Links}
use linux_programming_interf.Malloc.Away.{AllAway}
use linux_programming_interf.Malloc.FirstFit.{blocks}
use linux_programming_interf.Malloc.Allocate.{po_malloc-fit}
use linux_programming_interf.Malloc.Free.{po_free-Nexts}
use linux_programming_interf.Malloc.DoubleUse.{free_free_malloc_malloc, po_malloc_twice}

-- A kernel that always raises the break.
abbrev growing : Sbrk
growing = record {
  State = ℕ;
  break = λ s. s;
  call = λ n s. (s, s + n);
  call_lem = λ n s. inl (refl, refl);
}

abbrev block : ℕ → Ptr → Ptr → BlockHeader
block n prev next = record { block_length = n; prev_free_chunk = prev; next_free_chunk = next }

-- Three free blocks, of 50, 200 and 100 bytes, and the break at 5000.
abbrev three : Heap ℕ
three = record {
  header = λ a.
      if a == 1000
      then block 50 0 2000
      else if a == 2000
      then block 200 1000 3000
      else if a == 3000
      then block 100 2000 0
      else block 0 0 0;
  free_ll_head = 1000;
  kernel = 5000;
}

-- Two blocks in use, of 200 and 50 bytes, and an empty free list.
abbrev two_used : Heap ℕ
two_used = record {
  header =
      λ a. if a == 1000 then block 200 0 0 else if a == 2000 then block 50 0 0 else block 0 0 0;
  free_ll_head = 0;
  kernel = 5000;
}

-- A block that is allocated and freed is given out again.
reuse : Cmd ℕ (Ptr × Ptr)
unfolding po_malloc po_free
reuse = do
  first ← po_malloc growing 3 100
  _ ← po_free first
  second ← po_malloc growing 3 90
  pure (first, second)

abbrev result : Heap ℕ → Ptr × Ptr
result h = elim (reuse h) [ ok a _ ↦ a | _ ↦ (0, 0) ]

reuse_output : result two_used ≡ (5024, 5024)
unfolding reuse
reuse_output = refl

three-Links : Links three.header null three.free_ll_head (1000 ∷ 2000 ∷ 3000 ∷ [])
three-Links = (refl, refl, refl, (refl, refl, refl, (refl, refl, refl, refl)))

three-Nexts : Nexts three.header three.free_ll_head (1000 ∷ 2000 ∷ 3000 ∷ [])
three-Nexts = (refl, refl, (refl, refl, (refl, refl, refl)))

three-IsSpaced : IsSpaced (1000 ∷ 2000 ∷ 3000 ∷ [])
three-IsSpaced = ((inl (omega arith), (inl (omega arith), tt)), ((inl (omega arith), tt), (tt, tt)))

ll_remove-Links_example :
    (h' : Heap ℕ) × (ll_remove 2000 three ≡ ok tt h')
    × Links h'.header null h'.free_ll_head (1000 ∷ 3000 ∷ [])
    × ((c : Ptr)
        → Beside c (1000 ∷ 2000 ∷ 3000 ∷ [])
        → (h'.header c).block_length ≡ (three.header c).block_length)
    × (h'.kernel ≡ 5000)
ll_remove-Links_example =
    ll_remove-Links three 2000 (1000 ∷ []) (3000 ∷ []) three-Links three-IsSpaced

three-AllAway : AllAway three.header (1000 ∷ 2000 ∷ 3000 ∷ [])
three-AllAway = ((inl (omega arith), (inl (omega arith), tt)), ((inl (omega arith), tt), (tt, tt)))

-- The second block is split.
po_malloc-fit_example :
    (h' : Heap ℕ) × (zs : List Ptr) × (po_malloc growing 4 100 three ≡ ok 2024 h')
    × Links h'.header null h'.free_ll_head zs
    × (blocks h'.header zs ≡ (1000, 50) ∷ (2124, 100) ∷ (3000, 100) ∷ [])
    × (h'.kernel ≡ 5000)
po_malloc-fit_example =
    po_malloc-fit growing 4 100 three (1000 ∷ 2000 ∷ 3000 ∷ []) 2024
      ((1000, 50) ∷ (2124, 100) ∷ (3000, 100) ∷ []) three-Links three-AllAway
      (omega arith, (omega arith, (omega arith, tt))) (omega arith) (omega arith) refl

po_free-Nexts_example :
    (h' : Heap ℕ) × (po_free 4024 three ≡ ok tt h')
    × Nexts h'.header h'.free_ll_head (4000 ∷ 1000 ∷ 2000 ∷ 3000 ∷ [])
    × ((c : Ptr)
        → Beside c (4000 ∷ 1000 ∷ 2000 ∷ 3000 ∷ [])
        → (h'.header c).block_length ≡ (three.header c).block_length)
    × (h'.kernel ≡ 5000)
po_free-Nexts_example =
    po_free-Nexts three 4000 (1000 ∷ 2000 ∷ 3000 ∷ []) three-Nexts refl (omega arith)
      ((inr (omega arith), (inr (omega arith), (inr (omega arith), tt))), three-IsSpaced)

po_malloc_twice_example :
    (h' : Heap ℕ) × (free_free_malloc_malloc growing 1000 2000 190 2 two_used ≡ ok (1024, 1024) h')
po_malloc_twice_example =
    po_malloc_twice growing 1000 2000 190 0 two_used
      (record {
        here = refl;
        there = refl;
        inside = refl;
        room = omega arith;
        apart = inr (omega arith);
        not_inside = inr (omega arith);
        fits = omega arith;
        tight = omega arith;
        small = omega arith;
        short = omega arith;
      })
      refl
