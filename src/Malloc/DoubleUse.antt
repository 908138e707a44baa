-- ===== src/Malloc/DoubleUse.antt =====
-- What the back pointer that `po_free` stores does to the next allocation, and the allocation that
-- follows a lone free.
use linux_programming_interf.Common.{ℕ, suc, ◌+◌, ◌^◌, ◌≤◌, ◌<◌, ◌≡◌, refl, true, [], ◌∷◌, arith}
use linux_programming_interf.Malloc.Machine.{
  Ptr, null, header_size, Sbrk, Heap, Cmd, ok, pure, ◌>>=◌, ◌>>◌, addressable, write,
}
use linux_programming_interf.Malloc.FreeList.{Clear}
use linux_programming_interf.Malloc.{po_malloc, po_free, take_block, ll_remove}
use linux_programming_interf.Malloc.Scan.{scan-fit}
use linux_programming_interf.Malloc.Free.{word_back}

-- Two blocks, and a size that only the first freed one can hold, with no room for a second header.
-- The header of `p` overlaps neither that of `q` nor the one that a write through the memory of `q`
-- takes for a header.
pub record Blocks {K : Type 0} (h : Heap K) (p q : Ptr) (size : ℕ) : Type 0 where
  pub here : addressable p ≡ true
  pub there : addressable q ≡ true
  pub inside : addressable (q + header_size) ≡ true
  pub room : p + header_size < 2 ^ 64
  pub apart : Clear q p
  pub not_inside : Clear (q + header_size) p
  pub fits : size ≤ (h.header p).block_length
  pub tight : (h.header p).block_length ≤ size + header_size
  pub small : size + header_size < 2 ^ 64
  pub short : (h.header q).block_length < size

-- The list leads from `q` to `p` and ends there, and `p` points back into the block of `q`.
record Stale {K : Type 0} (h : Heap K) (p q : Ptr) (size : ℕ) : Type 0 where
  blocks : Blocks h p q size
  first : h.free_ll_head ≡ q
  second : (h.header q).next_free_chunk ≡ p
  third : (h.header p).next_free_chunk ≡ null
  back : (h.header p).prev_free_chunk ≡ q + header_size

module _ {K : Type 0} (h : Heap K) (p q : Ptr) (size : ℕ) where
  abbrev both_freed : Heap K
  both_freed =
      let f1 = write h.header p (record (h.header p) { prev_free_chunk = null }) in
      let f2 = write f1 p (record (f1 p) { next_free_chunk = null }) in
      let f3 = write f2 q (record (f2 q) { prev_free_chunk = null }) in
      let f4 = write f3 q (record (f3 q) { next_free_chunk = p }) in
      let f5 = write f4 p (record (f4 p) { prev_free_chunk = q + header_size }) in
      record h { header = f5; free_ll_head = q }

  both_freed-run :
      Blocks h p q size
      → h.free_ll_head ≡ null
      → (po_free (p + header_size) >> po_free (q + header_size)) h ≡ ok tt both_freed
  unfolding po_free
  both_freed-run b empty = ground (arith, word_back p b.room, word_back q (ground arith))

  both_freed-Stale : Blocks h p q size → Stale both_freed p q size
  both_freed-Stale b = record {
    blocks = record {
      here = b.here;
      there = b.there;
      inside = b.inside;
      room = b.room;
      apart = b.apart;
      not_inside = b.not_inside;
      fits = ground arith;
      tight = ground arith;
      small = b.small;
      short = ground arith;
    };
    first = refl;
    second = ground arith;
    third = ground arith;
    back = ground arith;
  }

module _ {K : Type 0} (h : Heap K) (p q : Ptr) (size : ℕ) where
  -- The write that should unlink `p` goes into the block of `q`.
  abbrev misplaced : Heap K
  misplaced =
      let m = q + header_size in
      record h { header = write h.header m (record (h.header m) { next_free_chunk = null }) }

  take_block-misplaced : Stale h p q size → take_block size p h ≡ ok (p + header_size) misplaced
  unfolding take_block ll_remove
  take_block-misplaced s = ground arith

  misplaced-Stale : Stale h p q size → Stale misplaced p q size
  misplaced-Stale s = record {
    blocks = record {
      here = s.blocks.here;
      there = s.blocks.there;
      inside = s.blocks.inside;
      room = s.blocks.room;
      apart = s.blocks.apart;
      not_inside = s.blocks.not_inside;
      fits = ground arith;
      tight = ground arith;
      small = s.blocks.small;
      short = ground arith;
    };
    first = s.first;
    second = ground arith;
    third = ground arith;
    back = ground arith;
  }

module _ (S : Sbrk) (p q : Ptr) (size : ℕ) where
  -- Two blocks are freed, and two of one size are asked for.
  abbrev pub free_free_malloc_malloc : ℕ → Cmd S.State (Ptr × Ptr)
  free_free_malloc_malloc fuel = do
    po_free (p + header_size) >> po_free (q + header_size)
    first ← po_malloc S fuel size
    second ← po_malloc S fuel size
    pure (first, second)

  po_malloc-Stale :
      (fuel : ℕ) (h : Heap S.State)
      → Stale h p q size
      → po_malloc S (suc (suc fuel)) size h ≡ ok (p + header_size) (misplaced h p q size)
  unfolding po_malloc
  po_malloc-Stale fuel h s =
      let found =
        scan-fit S (suc (suc fuel)) size h h.free_ll_head p (q ∷ []) []
          (s.first, s.blocks.there, (s.second, s.blocks.here, s.third)) (s.blocks.short, tt)
          s.blocks.fits (omega arith) in
      rw found (take_block-misplaced h p q size s)

  -- Into an empty free list `p` is freed and then `q`, the size fits only `p`, and the header of
  -- `p` overlaps neither that of `q` nor the 24 bytes behind it. Then `po_malloc` gives out the block of `p`, and a second call gives out the same block again.
  pub po_malloc_twice :
      (fuel : ℕ) (h : Heap S.State)
      → Blocks h p q size
      → h.free_ll_head ≡ null
      → (h' : Heap S.State) × (free_free_malloc_malloc (suc (suc fuel)) h
          ≡ ok (p + header_size, p + header_size) h')
  po_malloc_twice fuel h b empty =
      let h1 = both_freed h p q size in
      let h2 = misplaced h1 p q size in
      let s1 = both_freed-Stale h p q size b in
      let s2 = misplaced-Stale h1 p q size s1 in
      (
        misplaced h2 p q size,
        rw
            (
              both_freed-run h p q size b empty,
              po_malloc-Stale fuel h1 s1,
              po_malloc-Stale fuel h2 s2,
            )
            refl,
      )
