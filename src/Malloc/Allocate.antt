-- ===== src/Malloc/Allocate.antt =====
-- `po_malloc` on a well-linked free list of separate blocks.
use linux_programming_interf.Common.{
  ℕ, ◌+◌, ◌-◌, ◌^◌, ◌≤◌, ◌<◌, ◌≡◌, ◌≢◌, refl, sym, ap, ◌∙◌, inl, inr, true, false, some, List, [],
  ◌∷◌, ◌++◌, arith, length, length-append, All, All-map, Bool-cases, ltb, ltb→lt,
}
use mathlib.Core.Path.{subst}
use linux_programming_interf.Malloc.Machine.{
  Ptr, null, header_size, BlockHeader, Sbrk, Heap, ok, addressable, word, set_length, ◌>>◌,
}
use linux_programming_interf.Malloc.FreeList.{has, Links}
use linux_programming_interf.Malloc.{
  free_block_memory, ll_remove, ll_replace, take_block, po_malloc,
}
use linux_programming_interf.Malloc.Away.{Away, AllAway}
use linux_programming_interf.Malloc.Scan.{Links-Nexts, scan-fit}
use linux_programming_interf.Malloc.Unlink.{
  ll_remove-unlinked, Links-middle, has-append_right, has-append,
}
use linux_programming_interf.Malloc.Replace.{split-Links}
use linux_programming_interf.Malloc.FirstFit.{
  Apart, Block, blocks, fit, IsSeparate, separate-IsApart, All-middle, has_new, blocks-append,
  left_of, fit-found,
}

-- Blocks whose lengths are the same.
blocks_same :
    (f g : Ptr → BlockHeader) (xs : List Ptr)
    → ((c : Ptr) → (g c).block_length ≡ (f c).block_length)
    → blocks g xs ≡ blocks f xs
blocks_same f g [] same = refl
blocks_same f g (x ∷ xs) same =
    let one = same x in let rest = blocks_same f g xs same in λ i. (x, one i) ∷ rest i

blocks-frame :
    (f g : Ptr → BlockHeader) (n : Ptr) (xs : List Ptr)
    → has n xs ≡ false
    → ((c : Ptr) → c ≢ n → (g c).block_length ≡ (f c).block_length)
    → blocks g xs ≡ blocks f xs
blocks-frame f g n [] out same = refl
blocks-frame f g n (x ∷ xs) out same =
    let one = same x (ground arith) in
    let rest = blocks-frame f g n xs (ground arith) same in λ i. (x, one i) ∷ rest i

-- Every block and the header behind it end in the address space.
abbrev pub IsInside : (Ptr → BlockHeader) → List Ptr → Type 0
IsInside f = All (λ x. x + header_size + (f x).block_length < 2 ^ 64)

module _ {K : Type 0} (h h' : Heap K) (size : ℕ) (a : Ptr) where
  take_split-run :
      addressable a ≡ true
      → ltb (size + header_size) (h.header a).block_length ≡ true
      → a + header_size + (h.header a).block_length < 2 ^ 64
      → size + header_size < 2 ^ 64
      → (set_length (a + header_size + size) ((h.header a).block_length - size)
            >> ll_replace a (a + header_size + size))
          h
        ≡ ok tt h'
      → take_block size a h ≡ ok (a + header_size) h'
  unfolding take_block
  take_split-run here room inside small run =
      let memory : free_block_memory a ≡ a + header_size = omega arith in
      let total : word (size + header_size) ≡ size + header_size = omega arith in
      let place : word (a + header_size + size) ≡ a + header_size + size =
        (let lt = ltb→lt _ _ room in omega arith) in
      rw (memory, total, place, here, room, run) refl

  pub take_whole-run :
      addressable a ≡ true
      → ltb (size + header_size) (h.header a).block_length ≡ false
      → a + header_size + (h.header a).block_length < 2 ^ 64
      → size + header_size < 2 ^ 64
      → ll_remove a h ≡ ok tt h'
      → take_block size a h ≡ ok (a + header_size) h'
  unfolding take_block
  take_whole-run here tight inside small run =
      let memory : free_block_memory a ≡ a + header_size = omega arith in
      let total : word (size + header_size) ≡ size + header_size = omega arith in
      rw (memory, total, here, tight, run) refl

module _ {K : Type 0} (h : Heap K) (size : ℕ) (a : Ptr) (xs ys : List Ptr) where
  -- What a run leaves that gives out the block `a`.
  abbrev Taken : Heap K → List Ptr → Type 0
  Taken h' zs =
      (take_block size a h ≡ ok (a + header_size) h')
      × Links h'.header null h'.free_ll_head zs
      × (blocks h'.header zs ≡ blocks h.header xs ++ left_of h.header size a ys)
      × (h'.kernel ≡ h.kernel)

  take_block-Taken :
      Links h.header null h.free_ll_head (xs ++ a ∷ ys)
      → IsSeparate h.header (xs ++ a ∷ ys)
      → a + header_size + (h.header a).block_length < 2 ^ 64
      → size ≤ (h.header a).block_length
      → size + header_size < 2 ^ 64
      → (h' : Heap K) × (zs : List Ptr) × Taken h' zs
  unfolding take_block
  take_block-Taken l s inside fits small =
      let apart = separate-IsApart h.header (xs ++ a ∷ ys) s in
      let here = (Links-middle h.header null _ a xs ys l).0 in
      let n = a + header_size + size in
      let len = (h.header a).block_length - size in
      elim (Bool-cases (ltb (size + header_size) (h.header a).block_length)) [
        | inl room ↦
            let new = has_new h.header a n xs ys (omega arith) (ground arith) s in
            let at : addressable n ≡ true = ground arith in
            let (h', run, linked, long, same, kernel) =
              split-Links h a n len xs ys l apart new at in
            let out = has-append n xs (a ∷ ys) new in
            let out_ys : has n ys ≡ false =
              (let tail = has-append_right n xs (a ∷ ys) new in ground arith) in
            let rest : blocks h'.header (n ∷ ys) ≡ (n, len) ∷ blocks h.header ys =
              (λ i. (n, long i) ∷ blocks-frame h.header h'.header n ys out_ys same i) in
            (
              h',
              xs ++ n ∷ ys,
              (
                take_split-run h h' size a here room inside small run,
                linked,
                blocks-append h'.header xs (n ∷ ys)
                    ∙ (λ i. blocks-frame h.header h'.header n xs out same i ++ rest i)
                    ∙ rw room refl,
                kernel,
              ),
            )
        | inr tight ↦
            let (h', run, linked, lengths, kernel) = ll_remove-unlinked h a xs ys l apart in
            let frame = λ (zs : List Ptr). blocks_same h.header h'.header zs lengths in
            (
              h',
              xs ++ ys,
              (
                take_whole-run h h' size a here tight inside small run,
                linked,
                blocks-append h'.header xs ys ∙ (λ i. frame xs i ++ frame ys i) ∙ rw tight refl,
                kernel,
              ),
            )
      ]

-- By where the blocks begin.
po_malloc-separate :
    (S : Sbrk) (fuel size : ℕ) (h : Heap S.State) (xs : List Ptr) (m : Ptr) (bs : List Block)
    → Links h.header null h.free_ll_head xs
    → IsSeparate h.header xs
    → IsInside h.header xs
    → size + header_size < 2 ^ 64
    → length xs < fuel
    → fit size (blocks h.header xs) ≡ some (m, bs)
    → (h' : Heap S.State) × (zs : List Ptr) × (po_malloc S fuel size h ≡ ok m h')
      × Links h'.header null h'.free_ll_head zs
      × (blocks h'.header zs ≡ bs)
      × (h'.kernel ≡ h.kernel)
unfolding po_malloc
po_malloc-separate S fuel size h xs m bs l s inside small enough found =
    let (front, a, ys, split, short, fits, memory, rest) = fit-found h.header size xs m bs found in
    let l' = subst (λ zs. Links h.header null h.free_ll_head zs) split l in
    let s' = subst (IsSeparate h.header) split s in
    let in_a =
      All-middle h.header (λ x. x + header_size + (h.header x).block_length < 2 ^ 64) front ys a
        (subst (IsInside h.header) split inside) in
    let long : length front < fuel = omega (arith, ap length split, length-append front (a ∷ ys)) in
    let (h', zs, taken) = take_block-Taken h size a front ys l' s' in_a fits small in
    let (run, linked, free, kernel) = taken in
    let scanned =
      scan-fit S fuel size h h.free_ll_head a front ys (Links-Nexts h.header null _ _ l') short fits
        long in
    (h', zs, scanned ∙ run ∙ ap (λ p. ok p h') (sym memory), linked, free ∙ sym rest, kernel)

Away-Apart : (f : Ptr → BlockHeader) (x y : Ptr) → Away f x y → Apart f x y
Away-Apart f x y (inl le) = inl (omega arith, omega arith)
Away-Apart f x y (inr le) = inr (omega arith, omega arith)

AllAway-IsSeparate : (f : Ptr → BlockHeader) (xs : List Ptr) → AllAway f xs → IsSeparate f xs
AllAway-IsSeparate f [] away = tt
AllAway-IsSeparate f (x ∷ xs) (all, away) =
    (All-map xs (λ y a. Away-Apart f x y a) all, AllAway-IsSeparate f xs away)

-- On a well-linked free list of blocks that, with their headers, do not overlap, `po_malloc` does what
-- `fit` says of the blocks where there is one that is long enough: it returns the memory of the first
-- such block, and leaves a well-linked list of the blocks that are free then. The rest of a block
-- that is split keeps its place and has the length of the block less the size, and no room for its
-- header is taken off.
pub po_malloc-fit :
    (S : Sbrk) (fuel size : ℕ) (h : Heap S.State) (xs : List Ptr) (m : Ptr) (bs : List Block)
    → Links h.header null h.free_ll_head xs
    → AllAway h.header xs
    → IsInside h.header xs
    → size + header_size < 2 ^ 64
    → length xs < fuel
    → fit size (blocks h.header xs) ≡ some (m, bs)
    → (h' : Heap S.State) × (zs : List Ptr) × (po_malloc S fuel size h ≡ ok m h')
      × Links h'.header null h'.free_ll_head zs
      × (blocks h'.header zs ≡ bs)
      × (h'.kernel ≡ h.kernel)
po_malloc-fit S fuel size h xs m bs l away =
    po_malloc-separate S fuel size h xs m bs l (AllAway-IsSeparate h.header xs away)
