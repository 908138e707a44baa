-- ===== src/Chattr/Action.antt =====
-- What `do_action` of 15-file-attributes/chattr.c does to the flags of the files.
use linux_programming_interf.Common.{
  ℕ, ◌-◌, ◌%◌, ◌^◌, ◌<◌, ◌≡◌, refl, sym, ap, ◌∙◌, ◌⊎◌, ◌&&◌, inl, inr, true, false, none, some,
  List, [], ◌∷◌, String, CString, arith, ◌==◌, ltb, if◌then◌else◌, Option-cases, Bool-cases,
}
use linux_programming_interf.Common.Bits.{test_bit}
use linux_programming_interf.Chattr.Attrs.{
  get_mask_for_attrs, transform_attrs_add, transform_attrs_remove,
}
use linux_programming_interf.Chattr.Kernel.{Calls, IsLawful}
use linux_programming_interf.Chattr.Masks.{transform_attrs_bits}
use linux_programming_interf.Chattr.{
  set_new_flags, update_flags, change_file, change_files, do_action,
}

module _ (C : Calls) (L : IsLawful C) where
  open C use {World, open_file, get_flags, set_flags, close, print}

  -- The flags of all inodes are as before.
  abbrev Untouched : World → World → Type 0
  Untouched w w' = (j k : ℕ) → test_bit k (L.flags w' j) ≡ test_bit k (L.flags w j)

  -- One inode has those bits of the transformed word that can be changed, and all others are as
  -- before.
  abbrev Changed : (ℕ → ℕ) → World → World → Type 0
  Changed t w w' =
      (i : ℕ) × ((j k : ℕ)
        → test_bit k (L.flags w' j) ≡ (
            if (j == i) && L.modifiable i k
            then test_bit k (t (L.flags w i))
            else test_bit k (L.flags w j)))

  Untouched-close : (fd : ℕ) (m : String) (w : World) → Untouched w (close fd (print m w))
  Untouched-close fd m w j k =
      ap (test_bit k) (L.close-flags fd (print m w) j ∙ L.print-flags m w j)

  update_flags_closed :
      (t : ℕ → ℕ → ℕ) (mask fd : ℕ) (w : World)
      → L.inode w fd ≡ none
      → Untouched w (update_flags C t mask fd w)
  unfolding update_flags
  update_flags_closed t mask fd w shut j k =
      rw (L.get_flags-closed fd w shut, update_flags)
        (Untouched-close fd _ _ j k ∙ ap (test_bit k) (L.get_flags-same fd w j))

  from_before :
      (w w1 w' : World) (t : ℕ → ℕ → ℕ) (mask : ℕ)
      → ((j : ℕ) → L.flags w1 j ≡ L.flags w j)
      → Untouched w1 w' ⊎ Changed (λ a. t a mask) w1 w'
      → Untouched w w' ⊎ Changed (λ a. t a mask) w w'
  from_before w w1 w' t mask same (inl u) = inl λ j k. u j k ∙ ap (test_bit k) (same j)
  from_before w w1 w' t mask same (inr (i, c)) =
      inr (i, λ j k. ground (arith, c j k, same j, same i))

  set_new_flags-Changed :
      (t : ℕ → ℕ → ℕ) (mask fd i old : ℕ) (w : World)
      → L.inode w fd ≡ some i
      → old ≡ L.flags w i
      → Untouched w (set_new_flags C t mask fd old w)
        ⊎ Changed (λ a. t a mask) w (set_new_flags C t mask fd old w)
  unfolding set_new_flags
  set_new_flags-Changed t mask fd i old w is read =
      let a = t old mask in
      let w1 = print "cur attrs: 0x%08x, mask: 0x%08X\n" w in
      let w2 = print "new attrs: 0x%08X\n" w1 in
      let w3 = (set_flags fd a w2).1 in
      let m : String = "ERROR: Unable to set flags on %s, skipping\n" in
      let open' : L.inode w2 fd ≡ some i = L.print-inode _ w1 fd ∙ (L.print-inode _ w fd ∙ is) in
      let before : (j : ℕ) → L.flags w2 j ≡ L.flags w j =
        λ j. L.print-flags _ w1 j ∙ L.print-flags _ w j in
      elim (Bool-cases (set_flags fd a w2).0) [
        | inl done ↦ inr (
          i,
          λ j k.
              ground
                (arith, L.close-flags fd w3 j, L.set_flags-bits fd a w2 j k open', before j, read),
        )
        | inr failed ↦ inl λ j k. ground (
          arith,
          L.close-flags fd (print m w3) j,
          L.print-flags m w3 j,
          L.set_flags-bits fd a w2 j k open',
          before j,
        )
      ]

  update_flags-Changed :
      (t : ℕ → ℕ → ℕ) (mask fd i : ℕ) (w : World)
      → L.inode w fd ≡ some i
      → Untouched w (update_flags C t mask fd w)
        ⊎ Changed (λ a. t a mask) w (update_flags C t mask fd w)
  unfolding update_flags
  update_flags-Changed t mask fd i w is = elim (Option-cases (get_flags fd w).0) [
    | inl e ↦ inl λ j k.
        rw (e, update_flags)
          (Untouched-close fd _ _ j k ∙ ap (test_bit k) (L.get_flags-same fd w j))
    | inr (a, e) ↦
        let w1 = (get_flags fd w).1 in
        let same = L.get_flags-same fd w in
        let read : a ≡ L.flags w1 i = L.get_flags-flags fd w is e ∙ sym (same i) in
        let open' : L.inode w1 fd ≡ some i = L.get_flags-inode fd w fd ∙ is in
        rw (e, update_flags)
          (from_before w w1 _ t mask same (set_new_flags-Changed t mask fd i a w1 open' read))
  ]

  -- Whatever the calls answer, the loop body of `do_action` leaves all flags alone or gives one
  -- inode, and only it, the transformed flags.
  change_file-Changed :
      (t : ℕ → ℕ → ℕ) (mask : ℕ) (file : CString) (w : World)
      → Untouched w (change_file C t mask file w)
        ⊎ Changed (λ a. t a mask) w (change_file C t mask file w)
  unfolding change_file
  change_file-Changed t mask file w = elim (Option-cases (open_file file w).0) [
    | inl e ↦ inl λ j k.
        rw (e, change_file)
          (update_flags_closed t mask (2 ^ 32 - 1) (open_file file w).1 (L.inode-minus_one _) j k
            ∙ ap (test_bit k) (L.open_file-flags file w j))
    | inr (fd, e) ↦
        let w1 = (open_file file w).1 in
        let (small, place) = L.open_file-inode file w e in
        let (i, is) = place in
        let fd' : fd % 2 ^ 32 ≡ fd = omega arith in
        let signed : ltb fd 0 ≡ false = ground arith in
        rw (e, change_file, signed, fd')
          (from_before w w1 _ t mask (L.open_file-flags file w)
            (update_flags-Changed t mask fd i w1 is))
  ]

  -- A step that holds for every transformed word holds from the first world to the last.
  change_files-keeps :
      (t : ℕ → ℕ → ℕ) (mask k : ℕ) (keep : (a : ℕ) → test_bit k (t a mask) ≡ test_bit k a)
      (files : List CString) (w : World) (j : ℕ)
      → test_bit k (L.flags (change_files C t mask files w) j) ≡ test_bit k (L.flags w j)
  unfolding change_files
  change_files-keeps t mask k keep [] w j = refl
  change_files-keeps t mask k keep (file ∷ files) w j =
      change_files-keeps t mask k keep files (change_file C t mask file w) j
      ∙ elim (change_file-Changed t mask file w) [
        | inl u ↦ u j k
        | inr (i, c) ↦ ground (arith, c j k, keep (L.flags w i))
      ]

  -- For every inode and all answers of the calls, adding or removing attributes changes no flag
  -- bit outside the mask.
  pub do_action-keeps :
      (attrs : CString) (files : List CString) (w : World) (k j : ℕ) {mask : ℕ}
      → get_mask_for_attrs attrs ≡ some mask
      → mask < 2 ^ 32
      → k < 32
      → test_bit k mask ≡ 0
      → (test_bit k (L.flags (do_action C attrs files transform_attrs_add w).1 j)
          ≡ test_bit k (L.flags w j))
        × (test_bit k (L.flags (do_action C attrs files transform_attrs_remove w).1 j)
            ≡ test_bit k (L.flags w j))
  unfolding do_action
  do_action-keeps attrs files w k j {mask} e fits inside off =
      let bits = λ (a : ℕ). transform_attrs_bits k a mask inside fits in
      (
        rw (e, do_action) (change_files-keeps _ mask k (λ a. ground (arith, bits a)) files w j),
        rw (e, do_action) (change_files-keeps _ mask k (λ a. ground (arith, bits a)) files w j),
      )

  set_new_flags_done :
      (t : ℕ → ℕ → ℕ) (mask fd i a j k : ℕ) (w : World)
      → L.inode w fd ≡ some i
      → ((v : ℕ) (w' : World) → L.inode w' fd ≡ some i → (set_flags fd v w').0 ≡ true)
      → test_bit k (L.flags (set_new_flags C t mask fd a w) j)
        ≡ (if (j == i) && L.modifiable i k then test_bit k (t a mask) else test_bit k (L.flags w j))
  unfolding set_new_flags
  set_new_flags_done t mask fd i a j k w is set =
      let w3 = print "cur attrs: 0x%08x, mask: 0x%08X\n" w in
      let w4 = print "new attrs: 0x%08X\n" w3 in
      let open' : L.inode w4 fd ≡ some i = L.print-inode _ w3 fd ∙ (L.print-inode _ w fd ∙ is) in
      ground (
        arith,
        L.close-flags fd (set_flags fd (t a mask) w4).1 j,
        L.set_flags-bits fd (t a mask) w4 j k open',
        set (t a mask) w4 open',
        L.print-flags "new attrs: 0x%08X\n" w3 j,
        L.print-flags "cur attrs: 0x%08x, mask: 0x%08X\n" w j,
      )

  -- Where open() gives a descriptor of inode `i`, its flags can be read and every FS_IOC_SETFLAGS on it
  -- succeeds, the loop body gives inode `i` the transformed flags, as far as they can be changed, and
  -- leaves all others alone.
  pub change_file_done :
      (t : ℕ → ℕ → ℕ) (mask : ℕ) (file : CString) (w : World) (fd i a j k : ℕ)
      → (open_file file w).0 ≡ some fd
      → L.inode (open_file file w).1 fd ≡ some i
      → (get_flags fd (open_file file w).1).0 ≡ some a
      → ((v : ℕ) (w' : World) → L.inode w' fd ≡ some i → (set_flags fd v w').0 ≡ true)
      → test_bit k (L.flags (change_file C t mask file w) j) ≡ (
          if (j == i) && L.modifiable i k
          then test_bit k (t (L.flags w i) mask)
          else test_bit k (L.flags w j))
  unfolding change_file update_flags
  change_file_done t mask file w fd i a j k e is got set =
      let w1 = (open_file file w).1 in
      let w2 = (get_flags fd w1).1 in
      let fd' : fd % 2 ^ 32 ≡ fd = omega (arith, (L.open_file-inode file w e).0) in
      let signed : ltb fd 0 ≡ false = ground arith in
      let open' : L.inode w2 fd ≡ some i = L.get_flags-inode fd w1 fd ∙ is in
      rw (e, change_file, signed, fd')
        (rw (got, update_flags)
          (ground (
            arith,
            set_new_flags_done t mask fd i a j k w2 open' set,
            L.get_flags-same fd w1 j,
            L.open_file-flags file w j,
            L.get_flags-flags fd w1 is got,
            L.open_file-flags file w i,
          )))
