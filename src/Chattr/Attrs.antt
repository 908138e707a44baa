-- ===== src/Chattr/Attrs.antt =====
-- 15-file-attributes/chattr.c: the attribute letters, the table of their flags, the masks and the
-- three transformations of a flag word.
use Prim.Native.Nat.{bit_and, bit_or}
use linux_programming_interf.Common.{
  ℕ, Bool, true, false, Option, none, some, List, [], ◌∷◌, CString, codes, ◌==◌, ltb, length,
  if◌then◌else◌,
}
use linux_programming_interf.Common.Bits.{bit_not}

abbrev pub attrs_list : CString
attrs_list = codes "acdeijstuADT"

pub record AttrTableEntry : Type 0 where
  pub code : ℕ
  pub fs_flag : ℕ

abbrev pub entry : ℕ → ℕ → AttrTableEntry
entry c f = record { code = c; fs_flag = f }

-- The flags are those of linux/fs.h: FS_APPEND_FL, FS_COMPR_FL, FS_NODUMP_FL, FS_EXTENT_FL,
-- FS_IMMUTABLE_FL, FS_JOURNAL_DATA_FL, FS_SECRM_FL, FS_NOTAIL_FL, FS_UNRM_FL, FS_NOATIME_FL,
-- FS_DIRSYNC_FL, FS_TOPDIR_FL.
abbrev pub fs_attrs : List AttrTableEntry
fs_attrs =
    entry b'a' 0x20
    ∷ entry b'c' 0x4
    ∷ entry b'd' 0x40
    ∷ entry b'e' 0x80000
    ∷ entry b'i' 0x10
    ∷ entry b'j' 0x4000
    ∷ entry b's' 0x1
    ∷ entry b't' 0x8000
    ∷ entry b'u' 0x2
    ∷ entry b'A' 0x80
    ∷ entry b'D' 0x10000
    ∷ entry b'T' 0x20000
    ∷ []

-- The loop of `lookup_attr_table_entry` over the table.
unfoldable pub find_entry : ℕ → List AttrTableEntry → Option AttrTableEntry
find_entry attr [] = none
find_entry attr (e ∷ table) = if e.code == attr then some e else find_entry attr table

unfoldable pub lookup_attr_table_entry : ℕ → Option AttrTableEntry
unfolding find_entry
lookup_attr_table_entry attr = find_entry attr fs_attrs

-- The loop of `is_valid_attr` over the letters.
unfoldable pub contains : ℕ → CString → Bool
contains attr [] = false
contains attr (c ∷ cs) = if c == attr then true else contains attr cs

unfoldable pub is_valid_attr : ℕ → Bool
unfolding contains
is_valid_attr attr = contains attr attrs_list

unfoldable pub all_valid : CString → Bool
all_valid [] = true
all_valid (attr ∷ attrs) = if is_valid_attr attr then all_valid attrs else false

-- `false` is the exit with a usage message.
unfoldable pub validate_mode_string : CString → Bool
unfolding all_valid
validate_mode_string [] = false
validate_mode_string (action ∷ attrs) =
    if ltb (length (action ∷ attrs)) 2 then false else all_valid attrs

-- The loop of `get_mask_for_attrs`; `none` is the exit on a letter that the table lacks.
unfoldable pub add_flags : ℕ → CString → Option ℕ
add_flags mask [] = some mask
add_flags mask (attr ∷ attrs) = elim (lookup_attr_table_entry attr) [
  | none ↦ none
  | some e ↦ add_flags (bit_or mask e.fs_flag) attrs
]

unfoldable pub get_mask_for_attrs : CString → Option ℕ
unfolding add_flags
get_mask_for_attrs attrs = add_flags 0 attrs

-- An `int` is taken as its 32-bit pattern.
unfoldable pub transform_attrs_add : ℕ → ℕ → ℕ
transform_attrs_add attrs mask = bit_or attrs mask

unfoldable pub transform_attrs_remove : ℕ → ℕ → ℕ
unfolding bit_not
transform_attrs_remove attrs mask =
    let reversed_mask = bit_not 32 mask in bit_and attrs reversed_mask

unfoldable pub transform_attrs_only : ℕ → ℕ → ℕ
transform_attrs_only attrs mask = mask
