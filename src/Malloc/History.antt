-- ===== src/Malloc/History.antt =====
-- The life of a heap: a program allocates with po_malloc of 07-memory-allocation/po_malloc_free.c,
-- writes in the memory it was given, and frees it.
pub mod Preserved
pub mod Safe
mod Tests
use linux_programming_interf.Common.{
  ℕ, ◌+◌, ◌^◌, ◌≤◌, ◌<◌, ◌≡◌, ◌≢◌, ◌⊎◌, refl, sym, ap, ◌∙◌, inl, inr, true, List, [], ◌∷◌, ◌++◌,
  arith, length, All, All-map, All-both, Bool-cases, leb, ltb, false,
}
use mathlib.Core.Path.{subst}
use linux_programming_interf.Malloc.Machine.{
  Ptr, null, header_size, BlockHeader, Sbrk, Heap, ok, fault, Run,
}
use linux_programming_interf.Malloc.FreeList.{has, Links}
use linux_programming_interf.Malloc.{po_malloc, po_free}
use linux_programming_interf.Malloc.Scan.{
  raised, raised_same, raised-length, po_malloc-raised, scan-fit, Links-Nexts, TooShort,
  po_malloc_exhausted,
}
use linux_programming_interf.Malloc.Unlink.{Links-frame, ll_remove-unlinked}
use linux_programming_interf.Malloc.Allocate.{take_whole-run}
use linux_programming_interf.Malloc.Free.{freed, po_free-freed, length-freed}
use linux_programming_interf.Malloc.Away.{
  end, Away, AllAway, AllAway-front, AllAway-back, AllAway-has, AllAway-frame, All-has, has_left,
  has_right, All-back, All-front,
}

-- What stands outside of the memory of the block `b`.
abbrev pub Outside : (Ptr → BlockHeader) → Ptr → Ptr → Type 0
Outside f b c = (c + header_size ≤ b + header_size) ⊎ (end f b ≤ c)

-- The heap and the blocks that are in use. A program asks for no more than the address space has,
-- for no size that leaves so much of the free block that it is split, and frees when no block is
-- free. What it writes in its memory changes no header that stands outside of it.
pub data History (S : Sbrk) : Heap S.State → List Ptr → Type 0 where
  begins :
      {h : Heap S.State}
      → h.free_ll_head ≡ null
      → 0 < S.break h.kernel
      → S.break h.kernel < 2 ^ 64
      → History S h []
  allocates :
      {h h' : Heap S.State} {used : List Ptr} (fuel size b : ℕ)
      → History S h used
      → 1 < fuel
      → S.break h.kernel + header_size + size < 2 ^ 64
      → (h.free_ll_head ≡ null) ⊎ ((h.header h.free_ll_head).block_length ≤ size + header_size)
      → po_malloc S fuel size h ≡ ok (b + header_size) h'
      → History S h' (b ∷ used)
  frees :
      {h h' : Heap S.State} (b : Ptr) (us vs : List Ptr)
      → History S h (us ++ b ∷ vs)
      → h.free_ll_head ≡ null
      → po_free (b + header_size) h ≡ ok tt h'
      → History S h' (us ++ vs)
  fills :
      {h : Heap S.State} {used : List Ptr} (b : Ptr) (g : Ptr → BlockHeader)
      → History S h used
      → has b used ≡ true
      → ((c : Ptr) → Outside h.header b c → g c ≡ h.header c)
      → History S (record h { header = g }) used

-- The free list is well linked and has at most one block, no two blocks overlap, free or in use, and
-- all lie between NULL and the break.
pub record Sound (S : Sbrk) (h : Heap S.State) (free used : List Ptr) : Type 0 where
  pub linked : Links h.header null h.free_ll_head free
  pub single : length free ≤ 1
  pub away : AllAway h.header (free ++ used)
  pub below : All (λ x. (0 < x) × (end h.header x ≤ S.break h.kernel)) (free ++ used)
  pub started : 0 < S.break h.kernel
  pub bounded : S.break h.kernel < 2 ^ 64
