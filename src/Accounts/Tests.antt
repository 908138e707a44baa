-- ===== src/Accounts/Tests.antt =====
-- 08-users-and-groups/getpwnam.c and 09-process-credentials/initgroups.c at small databases.
use linux_programming_interf.Common.{ℕ, ◌≡◌, refl, some, List, [], ◌∷◌, CString, codes, str_eq}
use linux_programming_interf.Accounts.Getpwnam.{Passwd, po_getpwnam}
use linux_programming_interf.Accounts.Getpwnam.Laws.{Finds, po_getpwnam-Finds}
use linux_programming_interf.Accounts.InitGroups.{Group, po_initgroups, group_list}
use linux_programming_interf.Accounts.InitGroups.Laws.{group_list-memberships}

abbrev user : CString → ℕ → Passwd
user name uid = record { pw_name = name; pw_uid = uid; pw_gid = uid; pw_dir = []; pw_shell = [] }

abbrev root : Passwd
root = user (codes "root") 0

abbrev paul : Passwd
paul = user (codes "paul") 1000

abbrev mail : Passwd
mail = user (codes "mail") 8

abbrev group : ℕ → List CString → Group
group gid members = record { gr_gid = gid; gr_mem = members }

abbrev groups : List Group
groups =
    group 4 (codes "paul" ∷ [])
    ∷ group 8 (codes "mail" ∷ [])
    ∷ group 27 (codes "mail" ∷ codes "paul" ∷ [])
    ∷ []

paul_groups : po_initgroups (λ l. 0) (codes "paul") 1000 groups ≡ some 0
unfolding po_initgroups str_eq
paul_groups = refl

po_getpwnam-Finds_example :
    Finds
      (codes "paul")
      (root ∷ paul ∷ mail ∷ [])
      (po_getpwnam (codes "paul") (root ∷ paul ∷ mail ∷ []))
po_getpwnam-Finds_example = po_getpwnam-Finds (codes "paul") (root ∷ paul ∷ mail ∷ [])

group_list-memberships_example : group_list (codes "paul") 1000 groups ≡ some (1000 ∷ 4 ∷ 27 ∷ [])
unfolding str_eq
group_list-memberships_example = group_list-memberships (codes "paul") 1000 groups
