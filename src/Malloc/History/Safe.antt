-- ===== src/Malloc/History/Safe.antt =====
-- No history of a heap makes it unsound, and every history goes on.
use linux_programming_interf.Common.{
  ℕ, ◌+◌, ◌^◌, ◌≤◌, ◌<◌, ◌≡◌, ◌⊎◌, refl, sym, ap, ◌∙◌, inl, inr, List, [], ◌∷◌, ◌++◌, arith, length,
  Bool-cases, leb, ltb, false,
}
use mathlib.Core.Path.{subst}
use linux_programming_interf.Malloc.Machine.{
  Ptr, null, header_size, Sbrk, sbrk_failed, Heap, ok, fault, Run,
}
use linux_programming_interf.Malloc.{po_malloc, po_free}
use linux_programming_interf.Malloc.Scan.{
  raised, raised-length, po_malloc-raised, scan-fit, Links-Nexts, TooShort, po_malloc_exhausted,
}
use linux_programming_interf.Malloc.Unlink.{ll_remove-unlinked}
use linux_programming_interf.Malloc.Allocate.{take_whole-run}
use linux_programming_interf.Malloc.Free.{freed, po_free-freed}
use linux_programming_interf.Malloc.Away.{end, All-front}
use linux_programming_interf.Malloc.History.{History, begins, allocates, frees, fills, Sound}
use linux_programming_interf.Malloc.History.Preserved.{
  Sound-begins, Sound-raised, Sound-reused, Sound-freed, Sound-filled,
}

run_same : {K A : Type 0} (a a' : A) (h h' : Heap K) → ok a h ≡ ok a' h' → (a ≡ a') × (h ≡ h')
run_same {K} {A} a a' h h' e =
    let value : Run K A → A = λ r. elim r [ ok x _ ↦ x | _ ↦ a ] in
    let heap : Run K A → Heap K = λ r. elim r [ ok _ k ↦ k | _ ↦ h ] in (ap value e, ap heap e)

module _ (S : Sbrk) (h : Heap S.State) (size : ℕ) (used : List Ptr) where
  -- `po_malloc` returns the memory of a block that is as long as asked for, and the heap is sound.
  abbrev pub Serves : ℕ → Ptr → Heap S.State → List Ptr → Type 0
  Serves fuel b h' free =
      (po_malloc S fuel size h ≡ ok (b + header_size) h')
      × (size ≤ (h'.header b).block_length)
      × Sound S h' free (b ∷ used)

  -- sbrk fails, and `po_malloc` writes a header at what it returned.
  abbrev pub Fails : ℕ → Type 0
  Fails fuel =
      ((S.call (size + header_size) h.kernel).0 ≡ sbrk_failed) × (po_malloc S fuel size h ≡ fault)

  serve_raised :
      (fuel : ℕ) (free : List Ptr)
      → Sound S h free used
      → TooShort h.header size free
      → 1 < fuel
      → S.break h.kernel + header_size + size < 2 ^ 64
      → ((b : Ptr) × (h' : Heap S.State) × (free' : List Ptr) × Serves fuel b h' free') ⊎ Fails fuel
  serve_raised fuel free s short enough room =
      let chain = Links-Nexts h.header null h.free_ll_head free s.linked in
      let more : length free < fuel = omega (arith, s.single) in
      elim (S.call_lem (size + header_size) h.kernel) [
        | inl up ↦
            let (run, grown) =
              po_malloc-raised S fuel size h free chain short more up.0 (omega (arith, s.started))
                room in
            let long : size ≤ ((raised S size h).header (S.break h.kernel)).block_length =
              omega (arith, raised-length S size h) in
            inl (
              S.break h.kernel,
              raised S size h,
              free,
              (run, long, Sound-raised S h size free used s grown room),
            )
        | inr failed ↦ inr (
          failed.0,
          po_malloc_exhausted S fuel size h free chain short more (omega (arith, room)) failed.0,
        )
      ]

  serve_reused :
      (fuel : ℕ) (x : Ptr)
      → Sound S h (x ∷ []) used
      → size ≤ (h.header x).block_length
      → (h.header x).block_length ≤ size + header_size
      → 1 < fuel
      → S.break h.kernel + header_size + size < 2 ^ 64
      → (h' : Heap S.State) × Serves fuel x h' []
  unfolding po_malloc
  serve_reused fuel x s fit tight enough room =
      let (h', removed, linked, lengths, kernel) =
        ll_remove-unlinked h x [] [] s.linked (refl, tt) in
      let inside : end h.header x < 2 ^ 64 = omega (arith, s.below.0.1, s.bounded) in
      let whole : ltb (size + header_size) (h.header x).block_length ≡ false = ground arith in
      let taken = take_whole-run h h' size x s.linked.1 whole inside (omega arith) removed in
      let chain = Links-Nexts h.header null h.free_ll_head (x ∷ []) s.linked in
      let found = scan-fit S fuel size h h.free_ll_head x [] [] chain tt fit (omega arith) in
      (
        h',
        (
          found ∙ taken,
          omega (arith, lengths x, fit),
          Sound-reused S h h' x used s linked lengths kernel,
        ),
      )

  serve :
      (fuel : ℕ) (free : List Ptr)
      → Sound S h free used
      → 1 < fuel
      → S.break h.kernel + header_size + size < 2 ^ 64
      → (h.free_ll_head ≡ null) ⊎ ((h.header h.free_ll_head).block_length ≤ size + header_size)
      → ((b : Ptr) × (h' : Heap S.State) × (free' : List Ptr) × Serves fuel b h' free') ⊎ Fails fuel
  serve fuel [] s enough room tight = serve_raised fuel [] s tt enough room
  serve fuel (x ∷ []) s enough room (inl none_free) =
      absurd (omega (arith, none_free, s.linked.0, s.below.0.0))
  serve fuel (x ∷ []) s enough room (inr le) =
      let tight : (h.header x).block_length ≤ size + header_size =
        subst (λ k. (h.header k).block_length ≤ size + header_size) s.linked.0 le in
      elim (Bool-cases (leb size (h.header x).block_length)) [
        | inl long ↦
            let (h', served) = serve_reused fuel x s (ground arith) tight enough room in
            inl (x, h', [], served)
        | inr short ↦ serve_raised fuel (x ∷ []) s (ground arith, tt) enough room
      ]
  serve fuel (x ∷ y ∷ free) s enough room tight = absurd (omega (arith, s.single))

module _ (S : Sbrk) where
  release :
      (h : Heap S.State) (b : Ptr) (free us vs : List Ptr)
      → Sound S h free (us ++ b ∷ vs)
      → h.free_ll_head ≡ null
      → (h' : Heap S.State) × (po_free (b + header_size) h ≡ ok tt h')
        × Sound S h' (b ∷ []) (us ++ vs)
  release h b (x ∷ free) us vs s empty = absurd (omega (arith, empty, s.linked.0, s.below.0.0))
  release h b [] us vs s empty =
      let in_heap =
        (All-front (λ x. (0 < x) × (end h.header x ≤ S.break h.kernel)) us vs b s.below).0 in
      let room : b + header_size < 2 ^ 64 = omega (arith, in_heap.1, s.bounded) in
      let run = po_free-freed h b [] s.linked (ground (arith, in_heap.0)) room in
      (record h { header = freed h.header b []; free_ll_head = b }, run, Sound-freed S h b us vs s)

  -- In every history of a heap the free list is well linked and has at most one block, no two
  -- blocks overlap, free or in use, and all of them lie between NULL and the break, whatever is
  -- written in the memory that was given out.
  pub History-Sound :
      (h : Heap S.State) (used : List Ptr)
      → History S h used
      → (free : List Ptr) × Sound S h free used
  History-Sound h _ (begins e pos lt) = ([], Sound-begins S h e pos lt)
  History-Sound _ _ (allocates {h} {h'} {used} fuel size b before enough room tight run) =
      let (free, s) = History-Sound h used before in
      elim (serve S h size used fuel free s enough room tight) [
        | inl (c, h1, free', served) ↦
            let (value, heap) =
              run_same (c + header_size) (b + header_size) h1 h' (sym served.0 ∙ run) in
            let at : c ≡ b = omega (arith, value) in
            (
              free',
              subst (λ k. Sound S k free' (b ∷ used)) heap
                  (subst (λ k. Sound S h1 free' (k ∷ used)) at served.2),
            )
        | inr failed ↦ absurd (let clash = sym failed.1 ∙ run in cc clash)
      ]
  History-Sound _ _ (frees {h} {h'} b us vs before empty run) =
      let (free, s) = History-Sound h (us ++ b ∷ vs) before in
      let (h1, freed_run, sound) = release h b free us vs s empty in
      let (value, heap) = run_same tt tt h1 h' (sym freed_run ∙ run) in
      (b ∷ [], subst (λ k. Sound S k (b ∷ []) (us ++ vs)) heap sound)
  History-Sound _ _ (fills {h} {used} b g before i same) =
      let (free, s) = History-Sound h used before in (free, Sound-filled S h g b free used s i same)

  -- In every history of a heap, `po_malloc` of a size that does not split the free block, and for
  -- which there are addresses behind the break, returns the memory of a block that is at least as
  -- long, and the history goes on with this block in use; or sbrk fails, and `po_malloc` writes a
  -- header at the address by which sbrk reports it.
  pub po_malloc-History :
      (h : Heap S.State) (used : List Ptr) (fuel size : ℕ)
      → History S h used
      → 1 < fuel
      → S.break h.kernel + header_size + size < 2 ^ 64
      → (h.free_ll_head ≡ null) ⊎ ((h.header h.free_ll_head).block_length ≤ size + header_size)
      → ((b : Ptr) × (h' : Heap S.State) × (po_malloc S fuel size h ≡ ok (b + header_size) h')
          × (size ≤ (h'.header b).block_length)
          × History S h' (b ∷ used))
        ⊎ Fails S h size used fuel
  po_malloc-History h used fuel size past enough room tight =
      let (free, s) = History-Sound h used past in
      elim (serve S h size used fuel free s enough room tight) [
        | inl (b, h', free', served) ↦
            inl (b, h', served.0, served.1, allocates fuel size b past enough room tight served.0)
        | inr failed ↦ inr failed
      ]

  -- In every history of a heap whose free list is empty, `po_free` of the memory of a block in use
  -- returns, and the history goes on without it.
  pub po_free-History :
      (h : Heap S.State) (b : Ptr) (us vs : List Ptr)
      → History S h (us ++ b ∷ vs)
      → h.free_ll_head ≡ null
      → (h' : Heap S.State) × (po_free (b + header_size) h ≡ ok tt h') × History S h' (us ++ vs)
  po_free-History h b us vs past empty =
      let (free, s) = History-Sound h (us ++ b ∷ vs) past in
      let (h', run, sound) = release h b free us vs s empty in
      (h', run, frees b us vs past empty run)
