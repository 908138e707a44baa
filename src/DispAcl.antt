-- ===== src/DispAcl.antt =====
-- 17-access-control-lists/dispacl.c, over the calls of libacl.
use linux_programming_interf.Common.{
  ℕ, ◌-◌, Bool, true, false, Option, none, some, List, [], ◌∷◌, ◌++◌, CString, codes, str_eq,
  length, replicate, if◌then◌else◌,
}
use linux_programming_interf.Common.Output.{Output, text, str}

-- The tags of libacl's entries.
pub data Tag : Type 0 where
  acl_user_obj : Tag
  acl_user : Tag
  acl_group_obj : Tag
  acl_group : Tag
  acl_mask : Tag
  acl_other : Tag
  acl_undefined : Tag

pub record Acls : Type 1 where
  pub Acl : Type 0
  pub Entry : Type 0
  -- acl_get_file() with ACL_TYPE_ACCESS
  pub get_file : CString → Option Acl
  -- The entries that acl_get_entry() gives until it does not return 1.
  pub entries : Acl → List Entry
  pub get_tag_type : Entry → Option Tag
  -- acl_free() returns 0.
  pub free : Acl → Bool

-- The global variables.
pub record Settings : Type 0 where
  pub file : Option CString
  pub user : Option CString
  pub group : Option CString

abbrev pub print_usage : Output
print_usage =
    text "Usage:n $ ./prog_dispacl u <user> <file>\n $ ./prog_dispacl g <group> <file>\n" ∷ []

-- The exit by `print_usage` with what is printed, or the return.
pub data Parsed : Type 0 where
  exits : Output → Parsed
  returns : Settings → Parsed

unfoldable pub parse_arguments : List CString → Parsed
parse_arguments (program ∷ kind ∷ name ∷ path ∷ []) =
    if str_eq kind (codes "u")
    then returns (record { file = some path; user = some name; group = none })
    else (if str_eq kind (codes "g")
        then returns (record { file = some path; user = none; group = some name })
        else exits print_usage)
parse_arguments argv = exits (text "Expected 3 arguments\n" ∷ print_usage)

abbrev pub tag_name : Tag → CString
tag_name acl_user_obj = codes "user_obj"
tag_name acl_user = codes "user"
tag_name acl_group_obj = codes "group_obj"
tag_name acl_group = codes "group"
tag_name acl_mask = codes "mask"
tag_name acl_other = codes "other"
tag_name acl_undefined = codes "???"

-- "%-12s\n"
abbrev pub line : CString → CString
line name = name ++ (replicate (12 - length name) b' ' ++ (b'\n' ∷ []))

module _ (A : Acls) where
  open A use {Acl, Entry, get_file, entries, get_tag_type, free}

  -- The loop; `false` is the exit.
  unfoldable pub show_entries : List Entry → Bool × Output
  show_entries [] = (true, [])
  show_entries (entry ∷ rest) = elim (get_tag_type entry) [
    | none ↦ (false, text "Unexpected error on acl_get_tag_type\n" ∷ [])
    | some tag ↦
        (let (status, out) = show_entries rest in (status, str (line (tag_name tag)) ∷ out))
  ]

  unfoldable pub do_display_acl : CString → ℕ × Output
  unfolding show_entries
  do_display_acl file = elim (get_file file) [
    | none ↦ (1, text "Unable to open ACL for file " ∷ str file ∷ text "\n" ∷ [])
    | some acl ↦
        (let (status, out) = show_entries (entries acl) in
          if status
          then (if free acl then (0, out) else (1, out ++ (text "Unable to free ACL\n" ∷ [])))
          else (1, out))
  ]

  -- The exit status; `file` is set where `parse_arguments` returns.
  unfoldable pub main : List CString → ℕ × Output
  unfolding parse_arguments do_display_acl
  main argv = elim (parse_arguments argv) [
    | exits out ↦ (1, out)
    | returns s ↦ elim s.file [ none ↦ (1, []) | some file ↦ do_display_acl file ]
  ]
