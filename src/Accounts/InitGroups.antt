-- ===== src/Accounts/InitGroups.antt =====
-- 09-process-credentials/initgroups.c. What getgrent() is still to return is a list of groups;
-- setgroups() and getpwnam() are parameters.
pub mod Laws
use linux_programming_interf.Common.{
  ℕ, suc, Bool, true, false, Option, none, some, List, [], ◌∷◌, ◌++◌, CString, str_eq, ltb, ◌==◌,
  length, if◌then◌else◌,
}
use linux_programming_interf.Common.Options.{◌>>=◌}
use linux_programming_interf.Common.Output.{Output, text}

pub record Group : Type 0 where
  pub gr_gid : ℕ
  pub gr_mem : List CString

-- The size of the array `groups`.
abbrev pub groups_size : ℕ
groups_size = 1024

-- groups[groups_idx++] = gid, where `none` is a write past the end of the array.
unfoldable pub push : ℕ → List ℕ → Option (List ℕ)
push gid groups = if ltb (length groups) groups_size then some (groups ++ gid ∷ []) else none

-- The inner loop, over the members of one group.
unfoldable pub scan_members : CString → ℕ → List CString → List ℕ → Option (List ℕ)
scan_members user gid [] groups = some groups
scan_members user gid (username ∷ members) groups = do
  groups' ← (if str_eq username user then push gid groups else some groups)
  scan_members user gid members groups'

-- The outer loop, over the groups.
unfoldable pub scan_groups : CString → List Group → List ℕ → Option (List ℕ)
unfolding scan_members
scan_groups user [] groups = some groups
scan_groups user (grp ∷ rest) groups = do
  groups' ← scan_members user grp.gr_gid grp.gr_mem groups
  scan_groups user rest groups'

-- The list that is handed to setgroups().
unfoldable pub group_list : CString → ℕ → List Group → Option (List ℕ)
unfolding push scan_groups
group_list user group database = do groups ← push group []; scan_groups user database groups

module _ (setgroups : List ℕ → ℕ) where
  unfoldable pub po_initgroups : CString → ℕ → List Group → Option ℕ
  unfolding group_list
  po_initgroups user group database = do
    groups ← group_list user group database
    some (setgroups groups)

  -- `getpwnam` gives the group of a user. The result is the exit status; `none` is a read through
  -- a null pointer or a write past the array. (int) -1 is its 32-bit pattern.
  unfoldable pub main : (CString → Option ℕ) → List CString → List Group → Option (ℕ × Output)
  unfolding po_initgroups
  main getpwnam (program ∷ user ∷ _) database = do
    pw_gid ← getpwnam user
    result ← po_initgroups user pw_gid database
    some (
        if result == 0xffff_ffff
        then (0xffff_ffff, text "call to initgroups failed" ∷ [])
        else (0, text "Success!  I think..." ∷ []))
  main getpwnam _ database = none
