-- ===== src/Malloc/Free.antt =====
-- `po_free`: the block goes to the front, and what its back pointer then does to `po_malloc`.
use linux_programming_interf.Common.{◌+◌, ◌^◌, ◌<◌, ◌≡◌, refl, true, false, List, [], ◌∷◌, arith}
use linux_programming_interf.Malloc.Machine.{
  Ptr, null, header_size, BlockHeader, Heap, ok, addressable, write,
}
use linux_programming_interf.Malloc.FreeList.{has, has-Clear, IsSpaced, Beside, Nexts, Links}
use linux_programming_interf.Malloc.{free_block_header, po_free}
use linux_programming_interf.Malloc.Scan.{Nexts-frame}
use linux_programming_interf.Malloc.Unlink.{ne_of_has}

-- The header function after `po_free` of the block behind the header `b`.
abbrev pub freed : (Ptr → BlockHeader) → Ptr → List Ptr → Ptr → BlockHeader
freed f b [] =
    let f1 = write f b (record (f b) { prev_free_chunk = null }) in
    write f1 b (record (f1 b) { next_free_chunk = null })
freed f b (x ∷ xs) =
    let f1 = write f b (record (f b) { prev_free_chunk = null }) in
    let f2 = write f1 b (record (f1 b) { next_free_chunk = x }) in
    write f2 x (record (f2 x) { prev_free_chunk = b + header_size })

Nexts-freed :
    (f : Ptr → BlockHeader) (b q : Ptr) (xs : List Ptr)
    → Nexts f q xs
    → addressable b ≡ true
    → has b xs ≡ false
    → Nexts (freed f b xs) b (b ∷ xs)
Nexts-freed f b q [] l here out = (refl, here, ground arith)
Nexts-freed f b q (x ∷ xs) l here out =
    let g = freed f b (x ∷ xs) in
    let same : (c : Ptr) → has c (x ∷ xs) ≡ true → (g c).next_free_chunk ≡ (f c).next_free_chunk =
      λ c i. ground (arith, ne_of_has c b (x ∷ xs) i out) in
    let chain = Nexts-frame f g q (x ∷ xs) l same in (refl, here, (ground arith, chain.1, chain.2))

pub word_back : (b : Ptr) → b + header_size < 2 ^ 64 → free_block_header (b + header_size) ≡ b
word_back b room = omega arith

pub length-freed :
    (f : Ptr → BlockHeader) (b : Ptr) (xs : List Ptr) (c : Ptr)
    → (freed f b xs c).block_length ≡ (f c).block_length
length-freed f b [] c = ground arith
length-freed f b (x ∷ xs) c = ground arith

module _ {K : Type 0} where
  pub po_free-freed :
      (h : Heap K) (b : Ptr) (xs : List Ptr)
      → Nexts h.header h.free_ll_head xs
      → addressable b ≡ true
      → b + header_size < 2 ^ 64
      → po_free (b + header_size) h
        ≡ ok tt (record h { header = freed h.header b xs; free_ll_head = b })
  unfolding po_free
  po_free-freed h b [] l here room = ground (arith, word_back b room)
  po_free-freed h b (x ∷ xs) l here room = ground (arith, word_back b room)

  -- `po_free` of the memory behind a header that is not in the free list puts that header in
  -- front of the chain of next pointers, where the header and those of the list do not overlap. It
  -- keeps the length of every block whose header is one of these or overlaps none of them, and the
  -- kernel's state.
  pub po_free-Nexts :
      (h : Heap K) (b : Ptr) (xs : List Ptr)
      → Nexts h.header h.free_ll_head xs
      → addressable b ≡ true
      → b + header_size < 2 ^ 64
      → IsSpaced (b ∷ xs)
      → (h' : Heap K) × (po_free (b + header_size) h ≡ ok tt h')
        × Nexts h'.header h'.free_ll_head (b ∷ xs)
        × ((c : Ptr) → Beside c (b ∷ xs) → (h'.header c).block_length ≡ (h.header c).block_length)
        × (h'.kernel ≡ h.kernel)
  po_free-Nexts h b xs l here room (clear, spaced) = (
    record h { header = freed h.header b xs; free_ll_head = b },
    po_free-freed h b xs l here room,
    Nexts-freed h.header b h.free_ll_head xs l here (has-Clear b xs clear),
    λ c beside. length-freed h.header b xs c,
    refl,
  )

  -- Freeing a second block breaks the back links: the list is no longer well linked, since the
  -- old first header points back to the memory of the freed block and not to its header.
  po_free-not-Links :
      (h : Heap K) (b x : Ptr) (xs : List Ptr)
      → Nexts h.header h.free_ll_head (x ∷ xs)
      → addressable b ≡ true
      → b + header_size < 2 ^ 64
      → has b (x ∷ xs) ≡ false
      → (h' : Heap K) × (po_free (b + header_size) h ≡ ok tt h')
        × ¬ Links h'.header null h'.free_ll_head (b ∷ x ∷ xs)
  po_free-not-Links h b x xs l here room out = (
    record h { header = freed h.header b (x ∷ xs); free_ll_head = b },
    po_free-freed h b (x ∷ xs) l here room,
    λ links. ground arith,
  )
