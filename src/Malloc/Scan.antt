-- ===== src/Malloc/Scan.antt =====
-- `po_malloc`: the scan of the free list, and a new block at the break.
use linux_programming_interf.Common.{
  ℕ, zero, suc, ◌+◌, ◌^◌, ◌≤◌, ◌<◌, ◌≡◌, ◌≢◌, ap, true, false, List, [], ◌∷◌, ◌++◌, arith, length,
  All,
}
use linux_programming_interf.Malloc.Machine.{
  Ptr, null, header_size, BlockHeader, Sbrk, sbrk_failed, Heap, ok, fault, write,
}
use linux_programming_interf.Malloc.FreeList.{has, IsApart, Nexts, Links}
use linux_programming_interf.Malloc.{free_block_memory, take_block, expand, scan, po_malloc}
use linux_programming_interf.Malloc.Unlink.{ne_of_has, ll_remove-unlinked}

-- Every block of the list is shorter than `size`.
abbrev pub TooShort : (Ptr → BlockHeader) → ℕ → List Ptr → Type 0
TooShort f size = All (λ x. (f x).block_length < size)

pub Links-Nexts :
    (f : Ptr → BlockHeader) (b q : Ptr) (xs : List Ptr) → Links f b q xs → Nexts f q xs
Links-Nexts f b q [] l = l
Links-Nexts f b q (x ∷ xs) l = (l.0, l.1, Links-Nexts f x _ xs l.3)

-- The chain of next pointers depends on nothing else.
pub Nexts-frame :
    (f g : Ptr → BlockHeader) (q : Ptr) (xs : List Ptr)
    → Nexts f q xs
    → ((c : Ptr) → has c xs ≡ true → (g c).next_free_chunk ≡ (f c).next_free_chunk)
    → Nexts g q xs
Nexts-frame f g q [] l same = l
Nexts-frame f g q (x ∷ xs) l same =
    let rest = Nexts-frame f g _ xs l.2 (λ c i. same c (ground arith)) in
    (l.0, l.1, rw (same x (ground arith)) rest)

-- The three writes that make a header at the break.
abbrev with_block : (Ptr → BlockHeader) → Ptr → ℕ → Ptr → BlockHeader
with_block f b size =
    let f1 = write f b (record (f b) { next_free_chunk = null }) in
    let f2 = write f1 b (record (f1 b) { prev_free_chunk = null }) in
    write f2 b (record (f2 b) { block_length = size })

module _ (S : Sbrk) where
  pub scan-fit :
      (fuel size : ℕ) (h : Heap S.State) (q a : Ptr) (xs ys : List Ptr)
      → Nexts h.header q (xs ++ a ∷ ys)
      → TooShort h.header size xs
      → size ≤ (h.header a).block_length
      → length xs < fuel
      → scan S fuel size q h ≡ take_block size a h
  unfolding scan
  scan-fit zero size h q a xs ys l short fit enough = absurd (omega arith)
  scan-fit (suc fuel) size h q a [] ys l short fit enough = ground arith
  scan-fit (suc fuel) size h q a (x ∷ xs) ys l short fit enough = ground (
    arith,
    scan-fit fuel size h (h.header x).next_free_chunk a xs ys l.2 short.1 fit (omega arith),
  )

  scan_none :
      (fuel size : ℕ) (h : Heap S.State) (q : Ptr) (xs : List Ptr)
      → Nexts h.header q xs
      → TooShort h.header size xs
      → length xs < fuel
      → scan S fuel size q h ≡ expand S size null h
  unfolding scan
  scan_none zero size h q xs l short enough = absurd (omega arith)
  scan_none (suc fuel) size h q [] l short enough = ground arith
  scan_none (suc fuel) size h q (x ∷ xs) l short enough =
      ground
        (arith, scan_none fuel size h (h.header x).next_free_chunk xs l.2 short.1 (omega arith))

  -- When the first block of a well-linked free list that is long enough leaves no room for a
  -- second header, `po_malloc` returns its memory and takes exactly that block from the list.
  po_malloc-first_fit :
      (fuel size : ℕ) (h : Heap S.State) (a : Ptr) (xs ys : List Ptr)
      → Links h.header null h.free_ll_head (xs ++ a ∷ ys)
      → IsApart (xs ++ a ∷ ys)
      → TooShort h.header size xs
      → size ≤ (h.header a).block_length
      → (h.header a).block_length ≤ size + header_size
      → size + header_size < 2 ^ 64
      → length xs < fuel
      → (h' : Heap S.State) × (po_malloc S fuel size h ≡ ok (free_block_memory a) h')
        × Links h'.header null h'.free_ll_head (xs ++ ys)
        × (h'.kernel ≡ h.kernel)
  unfolding po_malloc take_block
  po_malloc-first_fit fuel size h a xs ys l apart short fit tight small enough =
      let (h', run, linked, lengths, same) = ll_remove-unlinked h a xs ys l apart in
      let found =
        scan-fit fuel size h h.free_ll_head a xs ys (Links-Nexts h.header null _ _ l) short fit
          enough in
      (h', rw found (ground arith), linked, same)

  -- The heap behind a block of `size` bytes at the break.
  abbrev pub raised : ℕ → Heap S.State → Heap S.State
  raised size h = record h {
    header = with_block h.header (S.break h.kernel) size;
    kernel = (S.call (size + header_size) h.kernel).1;
  }

  pub po_malloc-raised :
      (fuel size : ℕ) (h : Heap S.State) (xs : List Ptr)
      → let b = S.break h.kernel in
        Nexts h.header h.free_ll_head xs
        → TooShort h.header size xs
        → length xs < fuel
        → (S.call (size + header_size) h.kernel).0 ≡ b
        → b ≢ null
        → b + header_size + size < 2 ^ 64
        → (po_malloc S fuel size h ≡ ok (b + header_size) (raised size h))
          × (S.break (raised size h).kernel ≡ b + header_size + size)
  unfolding po_malloc expand
  po_malloc-raised fuel size h xs l short enough got ne room = (
    rw (scan_none fuel size h h.free_ll_head xs l short enough) (ground arith),
    ground (arith, S.call_lem (size + header_size) h.kernel),
  )

  pub raised_same :
      (size : ℕ) (h : Heap S.State) (c : Ptr)
      → c ≢ S.break h.kernel
      → (raised size h).header c ≡ h.header c
  raised_same size h c other = ground arith

  pub raised-length :
      (size : ℕ) (h : Heap S.State)
      → ((raised size h).header (S.break h.kernel)).block_length ≡ size
  raised-length size h = ground arith

  -- When no block of the free list is long enough, `po_malloc` asks sbrk for the size and one
  -- header. If sbrk raises the break, the old break holds the new header, the block behind it is
  -- returned, its length is the size, all other headers are kept, and the free list still stands.
  po_malloc_grows :
      (fuel size : ℕ) (h : Heap S.State) (xs : List Ptr)
      → let b = S.break h.kernel in
        Nexts h.header h.free_ll_head xs
        → TooShort h.header size xs
        → length xs < fuel
        → (S.call (size + header_size) h.kernel).0 ≡ b
        → b ≢ null
        → has b xs ≡ false
        → b + header_size + size < 2 ^ 64
        → (h' : Heap S.State) × (po_malloc S fuel size h ≡ ok (b + header_size) h')
          × ((h'.header b).block_length ≡ size)
          × ((c : Ptr) → c ≢ b → h'.header c ≡ h.header c)
          × (S.break h'.kernel ≡ b + header_size + size)
          × Nexts h'.header h'.free_ll_head xs
  po_malloc_grows fuel size h xs l short enough got ne out room =
      let b = S.break h.kernel in
      let (run, end) = po_malloc-raised fuel size h xs l short enough got ne room in
      let kept = raised_same size h in
      (
        raised size h,
        run,
        raised-length size h,
        kept,
        end,
        Nexts-frame h.header (raised size h).header h.free_ll_head xs l
            (λ c i. ap (λ d. d.next_free_chunk) (kept c (ne_of_has c b xs i out))),
      )

  -- When no block of the free list is long enough and sbrk fails, `po_malloc` does not return
  -- NULL: its test for NULL misses the value by which sbrk reports an error, and the header is
  -- written there.
  pub po_malloc_exhausted :
      (fuel size : ℕ) (h : Heap S.State) (xs : List Ptr)
      → Nexts h.header h.free_ll_head xs
      → TooShort h.header size xs
      → length xs < fuel
      → size + header_size < 2 ^ 64
      → (S.call (size + header_size) h.kernel).0 ≡ sbrk_failed
      → po_malloc S fuel size h ≡ fault
  unfolding po_malloc expand
  po_malloc_exhausted fuel size h xs l short enough room failed =
      rw (scan_none fuel size h h.free_ll_head xs l short enough) (ground arith)
