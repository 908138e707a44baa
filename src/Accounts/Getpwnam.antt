-- ===== src/Accounts/Getpwnam.antt =====
-- 08-users-and-groups/getpwnam.c. What getpwent() is still to return is a list of entries: a call
-- takes the first, or returns NULL when none is left.
pub mod Laws
use linux_programming_interf.Common.{
  ℕ, Bool, true, false, Option, none, some, List, [], ◌∷◌, ◌++◌, CString, str_eq, if◌then◌else◌,
}
use linux_programming_interf.Common.Output.{Output, text, str, num}

pub record Passwd : Type 0 where
  pub pw_name : CString
  pub pw_uid : ℕ
  pub pw_gid : ℕ
  pub pw_dir : CString
  pub pw_shell : CString

-- The result, and the entries that are left for the next getpwent().
unfoldable pub po_getpwnam : CString → List Passwd → Option Passwd × List Passwd
po_getpwnam name [] = (none, [])
po_getpwnam name (pwd ∷ rest) =
    let later = po_getpwnam name rest in if str_eq name pwd.pw_name then (some pwd, rest) else later

unfoldable pub pprint_pwd : Option Passwd → Output
pprint_pwd none = text "passwd is NULL, not found\n" ∷ []
pprint_pwd (some pwd) =
    text "struct passwd {\n"
    ∷ text "  pw_name=\""
    ∷ str pwd.pw_name
    ∷ text "\",\n"
    ∷ text "  pw_uid="
    ∷ num pwd.pw_uid
    ∷ text ",\n"
    ∷ text "  pw_gid="
    ∷ num pwd.pw_gid
    ∷ text ",\n"
    ∷ text "  pw_dir=\""
    ∷ str pwd.pw_dir
    ∷ text "\",\n"
    ∷ text "  pw_shell=\""
    ∷ str pwd.pw_shell
    ∷ text "\"\n"
    ∷ text "}\n"
    ∷ []

-- The exit status and the output of the program.
unfoldable pub main : List CString → List Passwd → ℕ × Output
unfolding po_getpwnam pprint_pwd
main (program ∷ name ∷ []) entries = (0, pprint_pwd (po_getpwnam name entries).0)
main (program ∷ _) entries = (1, text "Usage: " ∷ str program ∷ text " <name>\n" ∷ [])
main [] entries = (1, text "Usage: " ∷ text " <name>\n" ∷ [])
