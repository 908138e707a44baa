-- ===== src/Chattr/Masks.antt =====
-- The validation agrees with the table, and what a mask does to each flag bit.
use Prim.Native.Nat.{max, bit_or}
use linux_programming_interf.Common.{
  ℕ, zero, suc, inl, inr, Option-cases, ◌^◌, ◌<◌, ◌≡◌, refl, Bool, true, false, Option, none, some,
  [], ◌∷◌, CString, arith, ◌==◌, if◌then◌else◌,
}
use linux_programming_interf.Common.Bits.{
  test_bit, bit_not, test_bit-or, test_bit-and, test_bit-not, test_bit-le,
}
use linux_programming_interf.Chattr.Attrs.{
  AttrTableEntry, lookup_attr_table_entry, is_valid_attr, all_valid, validate_mode_string,
  add_flags, get_mask_for_attrs, transform_attrs_add, transform_attrs_remove, transform_attrs_only,
}

abbrev is_some {ℓ} : {A : Type ℓ} → Option A → Bool
is_some none = false
is_some (some _) = true

lookup_attr_table_entry-valid : (c : ℕ) → is_some (lookup_attr_table_entry c) ≡ is_valid_attr c
unfolding lookup_attr_table_entry is_valid_attr
lookup_attr_table_entry-valid c = ground arith

add_flags-valid : (mask : ℕ) (attrs : CString) → is_some (add_flags mask attrs) ≡ all_valid attrs
unfolding add_flags all_valid
add_flags-valid mask [] = refl
add_flags-valid mask (c ∷ attrs) = elim (Option-cases (lookup_attr_table_entry c)) [
  | inl absent ↦ ground (arith, lookup_attr_table_entry-valid c)
  | inr (e, found) ↦
      ground (arith, lookup_attr_table_entry-valid c, add_flags-valid (bit_or mask e.fs_flag) attrs)
]

-- For a mode string that passes the validation the mask is computed: the exit of
-- `get_mask_for_attrs` on a letter that the table lacks is never taken after the validation.
pub validate_mode_string-get_mask_for_attrs :
    (action : ℕ) (attrs : CString)
    → validate_mode_string (action ∷ attrs) ≡ true
    → (mask : ℕ) × (get_mask_for_attrs attrs ≡ some mask)
unfolding validate_mode_string get_mask_for_attrs
validate_mode_string-get_mask_for_attrs action [] h = ground arith
validate_mode_string-get_mask_for_attrs action (c ∷ attrs) h =
    ground (arith, add_flags-valid 0 (c ∷ attrs))

-- The bits that a string of letters asks for.
abbrev pub flag_bit : ℕ → Option AttrTableEntry → ℕ
flag_bit k none = 0
flag_bit k (some e) = test_bit k e.fs_flag

abbrev pub wanted : ℕ → CString → ℕ
wanted k [] = 0
wanted k (c ∷ attrs) = max (flag_bit k (lookup_attr_table_entry c)) (wanted k attrs)

add_flags-wanted :
    (k mask : ℕ) (attrs : CString) {m : ℕ}
    → add_flags mask attrs ≡ some m
    → test_bit k m ≡ max (test_bit k mask) (wanted k attrs)
unfolding add_flags
add_flags-wanted k mask [] h = ground arith
add_flags-wanted k mask (c ∷ attrs) {m} h = elim (Option-cases (lookup_attr_table_entry c)) [
  | inl absent ↦ cc
  | inr (e, found) ↦
      let rest : add_flags (bit_or mask e.fs_flag) attrs ≡ some m = ground arith in
      rw found (
        omega (
          arith,
          add_flags-wanted k (bit_or mask e.fs_flag) attrs rest,
          test_bit-or k mask e.fs_flag,
        ))
]

test_bit-zero : (k : ℕ) → test_bit k 0 ≡ 0
unfolding test_bit
test_bit-zero zero = refl
test_bit-zero (suc k) = test_bit-zero k

-- A bit is set in the mask exactly when it is the flag bit of one of the letters.
pub get_mask_for_attrs-wanted :
    (k : ℕ) (attrs : CString) {mask : ℕ}
    → get_mask_for_attrs attrs ≡ some mask
    → test_bit k mask ≡ wanted k attrs
unfolding get_mask_for_attrs
get_mask_for_attrs-wanted k attrs h = omega (arith, add_flags-wanted k 0 attrs h, test_bit-zero k)

module _ (k attrs mask : ℕ) (inside : k < 32) (fits : mask < 2 ^ 32) where
  -- The three actions, bit by bit: `+` sets the bits of the mask, `-` clears them, `=` keeps
  -- nothing else; all other bits stay with `+` and `-`.
  pub transform_attrs_bits :
      (test_bit k (transform_attrs_add attrs mask)
        ≡ (if test_bit k mask == 1 then 1 else test_bit k attrs))
      × (test_bit k (transform_attrs_remove attrs mask)
          ≡ (if test_bit k mask == 1 then 0 else test_bit k attrs))
      × (test_bit k (transform_attrs_only attrs mask) ≡ test_bit k mask)
  unfolding transform_attrs_add transform_attrs_remove transform_attrs_only
  transform_attrs_bits = (
    ground (arith, test_bit-or k attrs mask, test_bit-le k mask, test_bit-le k attrs),
    ground (
      arith,
      test_bit-and k attrs (bit_not 32 mask),
      test_bit-not 32 k mask inside fits,
      test_bit-le k mask,
      test_bit-le k attrs,
    ),
    refl,
  )
