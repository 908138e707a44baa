-- ===== src/Chattr/Tests.antt =====
-- 15-file-attributes/chattr.c on one file, and its theorems at concrete data.
use linux_programming_interf.Common.{
  Bool-cases, inl, inr, ℕ, ◌≡◌, refl, true, Option, none, some, List, [], ◌∷◌, CString, codes,
  arith, ◌==◌, if◌then◌else◌,
}
use mathlib.Core.Option.{some-injective}
use linux_programming_interf.Common.Bits.{test_bit}
use linux_programming_interf.Chattr.Attrs.{
  lookup_attr_table_entry, is_valid_attr, all_valid, validate_mode_string, add_flags,
  get_mask_for_attrs, transform_attrs_add, transform_attrs_remove, transform_attrs_only,
}
use linux_programming_interf.Chattr.Kernel.{Calls, IsLawful}
use linux_programming_interf.Chattr.Masks.{wanted, validate_mode_string-get_mask_for_attrs}
use linux_programming_interf.Chattr.Action.{do_action-keeps}
use linux_programming_interf.Chattr.Whole.{IsReliable, new_bit, main_bits}
use linux_programming_interf.Chattr.{
  End, returned, exited, set_new_flags, update_flags, change_file, change_files, do_action,
  dispatch, main,
}

-- The world is the flag word of inode 7, which every path names and descriptor 3 opens.
abbrev one_file : Calls
one_file = record {
  World = ℕ;
  open_file = λ f w. (some 3, w);
  get_flags = λ fd w. if fd == 3 then (some w, w) else (none, w);
  set_flags = λ fd a w. if fd == 3 then (true, a) else (true, w);
  close = λ fd w. w;
  print = λ s w. w;
}

abbrev flag_word : ℕ → ℕ → ℕ
flag_word w i = if i == 7 then w else 0

abbrev inode_of : ℕ → Option ℕ
inode_of fd = if fd == 3 then some 7 else none

one_file-IsLawful : IsLawful one_file
one_file-IsLawful = record {
  inode = λ w fd. inode_of fd;
  flags = flag_word;
  open_file-flags = λ f w i. refl;
  open_file-inode = λ f w e. let got = some-injective _ _ e in (omega arith, (7, rw (← got)));
  get_flags-flags = λ fd w is e. ground arith;
  get_flags-same = λ fd w i. ground arith;
  get_flags-inode = λ fd w d. ground arith;
  modifiable = λ i k. true;
  set_flags-bits = λ fd a w j k is. ground arith;
  get_flags-closed = λ fd w shut. ground arith;
  close-flags = λ fd w i. refl;
  print-flags = λ s w i. refl;
  print-inode = λ s w d. refl;
  inode-minus_one = λ w. refl;
}

run : List CString → ℕ → End × ℕ
unfolding main dispatch do_action change_files change_file update_flags set_new_flags
    validate_mode_string all_valid is_valid_attr get_mask_for_attrs add_flags
    lookup_attr_table_entry transform_attrs_add transform_attrs_remove transform_attrs_only
run = main one_file

adds : run (codes "chattr" ∷ codes "+ai" ∷ codes "f" ∷ []) 0x4 ≡ (returned 0, 0x34)
unfolding run
adds = refl

removes : run (codes "chattr" ∷ codes "-a" ∷ codes "f" ∷ []) 0x34 ≡ (returned 0, 0x14)
unfolding run
removes = refl

-- The letter S of the documentation is refused.
synchronous : run (codes "chattr" ∷ codes "+S" ∷ codes "f" ∷ []) 0x4 ≡ (exited 1, 0x4)
unfolding run
synchronous = refl

validate_mode_string-get_mask_for_attrs_example :
    (mask : ℕ) × (get_mask_for_attrs (codes "ai") ≡ some mask)
unfolding validate_mode_string all_valid is_valid_attr
validate_mode_string-get_mask_for_attrs_example =
    validate_mode_string-get_mask_for_attrs b'+' (codes "ai") refl

do_action-keeps_example :
    let new = λ (t : ℕ → ℕ → ℕ). (do_action one_file (codes "ai") (codes "f" ∷ []) t 0x4).1 in
    (test_bit 2 (one_file-IsLawful.flags (new transform_attrs_add) 7)
      ≡ test_bit 2 (one_file-IsLawful.flags 0x4 7))
    × (test_bit 2 (one_file-IsLawful.flags (new transform_attrs_remove) 7)
        ≡ test_bit 2 (one_file-IsLawful.flags 0x4 7))
unfolding get_mask_for_attrs add_flags lookup_attr_table_entry test_bit
do_action-keeps_example =
    do_action-keeps one_file one_file-IsLawful (codes "ai") (codes "f" ∷ []) 0x4 2 7 refl
      (omega arith) (omega arith) refl

any_open : (fd i w : ℕ) → inode_of fd ≡ some i → (a : ℕ) × ((one_file.get_flags fd w).0 ≡ some a)
any_open fd i w is = elim (Bool-cases (fd == 3)) [
  | inl e ↦ (w, rw e refl)
  | inr e ↦ absurd (let clash : none ≡ some i = rw e at is in cc)
]

one_file-IsReliable : IsReliable one_file one_file-IsLawful
unfolding one_file-IsLawful
one_file-IsReliable = record {
  inode_of = λ f. 7;
  open_done = λ f w. (3, refl, refl);
  get_done = λ fd i w is. any_open fd i w is;
  set_done = λ fd i v w is. ground arith;
}

-- Bit 4, that of the letter i, of the only file.
main_bits_example :
    ((main one_file (codes "chattr" ∷ codes "+ai" ∷ codes "f" ∷ []) 0x4).0 ≡ returned 0)
    × (test_bit 4
          (flag_word (main one_file (codes "chattr" ∷ codes "+ai" ∷ codes "f" ∷ []) 0x4).1 7)
        ≡ new_bit b'+' (wanted 4 (codes "ai")) (test_bit 4 0x4))
unfolding one_file-IsLawful one_file-IsReliable validate_mode_string is_valid_attr
main_bits_example =
    main_bits one_file one_file-IsLawful one_file-IsReliable (codes "chattr") b'+' (codes "ai")
      (codes "f") [] 0x4 4 7 refl (omega arith)
