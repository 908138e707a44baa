-- ===== src/Chattr/Whole.antt =====
-- A whole run of 15-file-attributes/chattr.c on files that can be changed.
use Prim.Native.Nat.{bit_or}
use linux_programming_interf.Common.{
  ℕ, ◌^◌, ◌<◌, ◌≡◌, refl, inl, inr, Bool, true, false, ◌||◌, none, some, List, [], ◌∷◌, CString,
  arith, ◌==◌, if◌then◌else◌, Option-cases, Bool-cases,
}
use linux_programming_interf.Common.Bits.{test_bit, bit_or-lt}
use linux_programming_interf.Chattr.Attrs.{
  AttrTableEntry, find_entry, lookup_attr_table_entry, add_flags, get_mask_for_attrs,
  validate_mode_string, transform_attrs_add, transform_attrs_remove, transform_attrs_only,
}
use linux_programming_interf.Chattr.Kernel.{Calls, IsLawful}
use linux_programming_interf.Chattr.Masks.{
  wanted, get_mask_for_attrs-wanted, transform_attrs_bits, validate_mode_string-get_mask_for_attrs,
}
use linux_programming_interf.Chattr.Action.{change_file_done}
use linux_programming_interf.Chattr.{returned, change_file, change_files, do_action, dispatch, main}

lookup_attr_table_entry-lt :
    (c : ℕ) {e : AttrTableEntry} → lookup_attr_table_entry c ≡ some e → e.fs_flag < 2 ^ 32
unfolding lookup_attr_table_entry find_entry
lookup_attr_table_entry-lt c found = ground arith

add_flags-lt :
    (mask : ℕ) (attrs : CString) {m : ℕ}
    → mask < 2 ^ 32
    → add_flags mask attrs ≡ some m
    → m < 2 ^ 32
unfolding add_flags
add_flags-lt mask [] fits h = ground arith
add_flags-lt mask (c ∷ attrs) {m} fits h = elim (Option-cases (lookup_attr_table_entry c)) [
  | inl absent ↦ absurd (let clash : none ≡ some m = rw (absent, add_flags) at h in cc)
  | inr (e, found) ↦
      let rest : add_flags (bit_or mask e.fs_flag) attrs ≡ some m = rw (found, add_flags) at h in
      add_flags-lt (bit_or mask e.fs_flag) attrs
        (bit_or-lt 32 mask e.fs_flag fits (lookup_attr_table_entry-lt c found)) rest
]

-- Every path names an inode, and no call on it fails. Where the file system refuses a change, for
-- instance that of FS_EXTENT_FL, this does not hold.
pub record IsReliable (C : Calls) (L : IsLawful C) : Type 0 where
  pub inode_of : CString → ℕ
  pub open_done :
      (f : CString) (w : C.World)
      → (fd : ℕ) × ((C.open_file f w).0 ≡ some fd)
        × (L.inode (C.open_file f w).1 fd ≡ some (inode_of f))
  pub get_done :
      (fd i : ℕ) (w : C.World) → L.inode w fd ≡ some i → (a : ℕ) × ((C.get_flags fd w).0 ≡ some a)
  pub set_done : (fd i v : ℕ) (w : C.World) → L.inode w fd ≡ some i → (C.set_flags fd v w).0 ≡ true

-- One of the files is the inode `j`.
abbrev pub names : (CString → ℕ) → ℕ → List CString → Bool
names inode_of j [] = false
names inode_of j (file ∷ files) = (j == inode_of file) || names inode_of j files

-- A bit behind an action, where `asked` tells whether one of the letters asks for it.
abbrev pub new_bit : ℕ → ℕ → ℕ → ℕ
new_bit action asked old =
    if action == b'+'
    then (if asked == 1 then 1 else old)
    else if action == b'-'
    then (if asked == 1 then 0 else old)
    else if action == b'='
    then asked
    else old

module _ (C : Calls) (L : IsLawful C) (R : IsReliable C L) where
  change_files_bits :
      (t : ℕ → ℕ → ℕ) (mask k : ℕ) (b : ℕ → ℕ) (files : List CString) (w : C.World) (j : ℕ)
      → ((a : ℕ) → test_bit k (t a mask) ≡ b (test_bit k a))
      → ((x : ℕ) → b (b x) ≡ b x)
      → test_bit k (L.flags (change_files C t mask files w) j) ≡ (
          if names R.inode_of j files
          then (if L.modifiable j k then b (test_bit k (L.flags w j)) else test_bit k (L.flags w j))
          else test_bit k (L.flags w j))
  unfolding change_files
  change_files_bits t mask k b [] w j bits twice = refl
  change_files_bits t mask k b (file ∷ files) w j bits twice =
      let w1 = change_file C t mask file w in
      let i = R.inode_of file in
      let (fd, opened, is) = R.open_done file w in
      let (a, got) = R.get_done fd i (C.open_file file w).1 is in
      let one =
        change_file_done C L t mask file w fd i a j k opened is got
          (λ v w'. R.set_done fd i v w') in
      let later = change_files_bits t mask k b files w1 j bits twice in
      elim (Bool-cases (L.modifiable i k)) [
        | inr fixed ↦
            let now : test_bit k (L.flags w1 j) ≡ test_bit k (L.flags w j) = ground (arith, one) in
            ground (arith, later, now, fixed)
        | inl free ↦
            let now : test_bit k (L.flags w1 j)
                ≡ (if j == i then b (test_bit k (L.flags w j)) else test_bit k (L.flags w j)) =
              ground (arith, one, bits (L.flags w i), free) in
            ground (arith, later, now, free, twice (test_bit k (L.flags w j)))
      ]

  dispatch_bits :
      (action : ℕ) (attrs : CString) (files : List CString) (w : C.World) (mask k j : ℕ)
      → get_mask_for_attrs attrs ≡ some mask
      → mask < 2 ^ 32
      → k < 32
      → ((dispatch C action attrs files w).0 ≡ returned 0)
        × (test_bit k (L.flags (dispatch C action attrs files w).1 j) ≡ (
            if names R.inode_of j files
            then (if L.modifiable j k
                then new_bit action (test_bit k mask) (test_bit k (L.flags w j))
                else test_bit k (L.flags w j))
            else test_bit k (L.flags w j)))
  unfolding dispatch do_action
  dispatch_bits action attrs files w mask k j e fits inside =
      let asked = test_bit k mask in
      let bits = λ (a : ℕ). transform_attrs_bits k a mask inside fits in
      elim (Bool-cases (action == b'+')) [
        | inl add ↦
            let b : ℕ → ℕ = λ x. if asked == 1 then 1 else x in
            rw (add, dispatch, e, do_action)
              (
                refl,
                change_files_bits transform_attrs_add mask k b files w j (λ a. (bits a).0)
                    (λ x. ground arith),
              )
        | inr no_add ↦ elim (Bool-cases (action == b'-')) [
          | inl remove ↦
              let b : ℕ → ℕ = λ x. if asked == 1 then 0 else x in
              rw (no_add, remove, dispatch, e, do_action)
                (
                  refl,
                  change_files_bits transform_attrs_remove mask k b files w j (λ a. (bits a).1)
                      (λ x. ground arith),
                )
          | inr no_remove ↦ elim (Bool-cases (action == b'=')) [
            | inl only ↦
                let b : ℕ → ℕ = λ x. asked in
                rw (no_add, no_remove, only, dispatch, e, do_action)
                  (
                    refl,
                    change_files_bits transform_attrs_only mask k b files w j (λ a. (bits a).2)
                        (λ x. refl),
                  )
            | inr none_of ↦ rw (no_add, no_remove, none_of, dispatch) (refl, ground arith)
          ]
        ]
      ]

  -- With a mode string that passes the validation, and files that can all be changed, the program
  -- returns 0, and every flag bit that can be changed of every inode is as the mode asks: behind `+`
  -- and `-` the bits of the letters are set or cleared and all others kept, behind `=` the bits of
  -- the letters are set and all others cleared, and behind another character, as in all other files,
  -- nothing changes. A flag bit that cannot be changed is kept.
  pub main_bits :
      (program : CString) (action : ℕ) (attrs file : CString) (files : List CString) (w : C.World)
      (k j : ℕ)
      → validate_mode_string (action ∷ attrs) ≡ true
      → k < 32
      → ((main C (program ∷ (action ∷ attrs) ∷ file ∷ files) w).0 ≡ returned 0)
        × (test_bit k (L.flags (main C (program ∷ (action ∷ attrs) ∷ file ∷ files) w).1 j) ≡ (
            if names R.inode_of j (file ∷ files)
            then (if L.modifiable j k
                then new_bit action (wanted k attrs) (test_bit k (L.flags w j))
                else test_bit k (L.flags w j))
            else test_bit k (L.flags w j)))
  unfolding main get_mask_for_attrs
  main_bits program action attrs file files w k j valid inside =
      let (mask, e) = validate_mode_string-get_mask_for_attrs action attrs valid in
      let asked = get_mask_for_attrs-wanted k attrs e in
      let fits = add_flags-lt 0 attrs (omega arith) e in
      rw (valid, main, ← asked) (dispatch_bits action attrs (file ∷ files) w mask k j e fits inside)
