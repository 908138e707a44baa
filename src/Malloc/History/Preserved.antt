-- ===== src/Malloc/History/Preserved.antt =====
-- What keeps a heap sound.
use linux_programming_interf.Common.{
  ℕ, ◌+◌, ◌^◌, ◌≤◌, ◌<◌, ◌≡◌, ◌⊎◌, refl, ap, inl, inr, true, List, [], ◌∷◌, ◌++◌, arith, All,
  All-map, All-both,
}
use linux_programming_interf.Malloc.Machine.{Ptr, null, header_size, BlockHeader, Sbrk, Heap}
use linux_programming_interf.Malloc.FreeList.{has}
use linux_programming_interf.Malloc.Scan.{raised, raised_same, raised-length}
use linux_programming_interf.Malloc.Unlink.{Links-frame}
use linux_programming_interf.Malloc.Free.{freed, length-freed}
use linux_programming_interf.Malloc.Away.{
  end, Away, AllAway-front, AllAway-back, AllAway-has, AllAway-frame, All-has, has_left, has_right,
  All-back, All-front,
}
use linux_programming_interf.Malloc.History.{Sound, Outside}

module _ (S : Sbrk) where
  pub Sound-begins :
      (h : Heap S.State)
      → h.free_ll_head ≡ null
      → 0 < S.break h.kernel
      → S.break h.kernel < 2 ^ 64
      → Sound S h [] []
  Sound-begins h e pos lt = record {
    linked = e;
    single = omega arith;
    away = tt;
    below = tt;
    started = pos;
    bounded = lt;
  }

  -- A block at the break.
  pub Sound-raised :
      (h : Heap S.State) (size : ℕ) (free used : List Ptr)
      → Sound S h free used
      → S.break (raised S size h).kernel ≡ S.break h.kernel + header_size + size
      → S.break h.kernel + header_size + size < 2 ^ 64
      → Sound S (raised S size h) free (S.break h.kernel ∷ used)
  Sound-raised h size free used s grown room =
      let b = S.break h.kernel in
      let g = (raised S size h).header in
      let kept : (c : Ptr) → (0 < c) × (end h.header c ≤ b) → g c ≡ h.header c =
        λ c in_heap. raised_same S size h c (omega (arith, in_heap.1)) in
      let same =
        All-map (free ++ used) (λ c in_heap. ap (λ d. d.block_length) (kept c in_heap)) s.below in
      let left : All (λ c. (0 < c) × (end g c ≤ b)) (free ++ used) =
        All-both (free ++ used) (λ c e in_heap. (in_heap.0, (omega arith))) same s.below in
      record {
        linked = Links-frame h.header g null h.free_ll_head free s.linked (λ c i. kept c (
            All-has (λ d. (0 < d) × (end h.header d ≤ b)) c (free ++ used) (has_left c free used i)
              s.below));
        single = s.single;
        away = AllAway-back g free used b (
          All-map (free ++ used) (λ c in_heap. inr in_heap.1) left,
          AllAway-frame h.header g (free ++ used) same s.away,
        );
        below =
            All-back (λ c. (0 < c) × (end g c ≤ S.break (raised S size h).kernel)) free used b
              (
                (s.started, omega (arith, raised-length S size h)),
                All-map (free ++ used) (λ c in_heap. (in_heap.0, omega arith)) left,
              );
        started = omega arith;
        bounded = omega arith;
      }

  -- The free block is given out.
  pub Sound-reused :
      (h h' : Heap S.State) (x : Ptr) (used : List Ptr)
      → Sound S h (x ∷ []) used
      → h'.free_ll_head ≡ null
      → ((c : Ptr) → (h'.header c).block_length ≡ (h.header c).block_length)
      → h'.kernel ≡ h.kernel
      → Sound S h' [] (x ∷ used)
  Sound-reused h h' x used s empty lengths kernel =
      let all = x ∷ used in
      let same = All-map all (λ c in_heap. lengths c) s.below in
      let at : S.break h'.kernel ≡ S.break h.kernel = ap S.break kernel in
      record {
        linked = empty;
        single = omega arith;
        away = AllAway-frame h.header h'.header all same s.away;
        below = All-map all (λ c in_heap. (in_heap.0, omega (arith, lengths c, in_heap.1))) s.below;
        started = omega arith;
        bounded = omega arith;
      }

  pub Sound-freed :
      (h : Heap S.State) (b : Ptr) (us vs : List Ptr)
      → Sound S h [] (us ++ b ∷ vs)
      → Sound S (record h { header = freed h.header b []; free_ll_head = b }) (b ∷ []) (us ++ vs)
  Sound-freed h b us vs s =
      let g = freed h.header b [] in
      let all = b ∷ us ++ vs in
      let moved = All-front (λ x. (0 < x) × (end h.header x ≤ S.break h.kernel)) us vs b s.below in
      let lengths = length-freed h.header b [] in
      let same = All-map all (λ c in_heap. lengths c) moved in
      record {
        linked = (refl, ground (arith, s.bounded, moved.0.1), ground arith, ground arith);
        single = omega arith;
        away = AllAway-frame h.header g all same (AllAway-front h.header us vs b s.away);
        below = All-map all (λ c in_heap. (in_heap.0, omega (arith, lengths c, in_heap.1))) moved;
        started = s.started;
        bounded = s.bounded;
      }

  pub Sound-filled :
      (h : Heap S.State) (g : Ptr → BlockHeader) (b : Ptr) (free used : List Ptr)
      → Sound S h free used
      → has b used ≡ true
      → ((c : Ptr) → Outside h.header b c → g c ≡ h.header c)
      → Sound S (record h { header = g }) free used
  Sound-filled h g b free used s i same =
      let all = free ++ used in
      let outside : (c : Ptr) → (c ≡ b) ⊎ Away h.header b c → Outside h.header b c = λ c w. elim w [
        | inl e ↦ inl (omega (arith, e))
        | inr apart ↦ elim apart [ inl le ↦ inr le | inr le ↦ inl (omega (arith, le)) ]
      ] in
      let kept =
        All-map all (λ c w. same c (outside c w))
          (AllAway-has h.header b all (has_right b free used i) s.away) in
      let lengths = All-map all (λ c e. ap (λ d. d.block_length) e) kept in
      record {
        linked =
            Links-frame h.header g null h.free_ll_head free s.linked
              (λ c k. All-has (λ d. g d ≡ h.header d) c all (has_left c free used k) kept);
        single = s.single;
        away = AllAway-frame h.header g all lengths s.away;
        below =
            All-both all (λ c e in_heap. (in_heap.0, omega (arith, e, in_heap.1))) lengths s.below;
        started = s.started;
        bounded = s.bounded;
      }
