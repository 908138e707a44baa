-- ===== src/Accounts/InitGroups/Laws.antt =====
-- The list that `po_initgroups` of 09-process-credentials/initgroups.c builds.
use mathlib.Core.List.{append_assoc, append-nil}
use linux_programming_interf.Common.{
  ℕ, ◌≤◌, ◌≡◌, ◌∙◌, ap, inl, inr, Option, none, some, List, [], ◌∷◌, ◌++◌, CString, str_eq, arith,
  ltb, length, if◌then◌else◌, length-append, Bool-cases,
}
use linux_programming_interf.Accounts.InitGroups.{
  Group, groups_size, push, scan_members, scan_groups, group_list,
}

-- The group id, once for each time that the user is listed.
abbrev hits : CString → ℕ → List CString → List ℕ
hits user gid [] = []
hits user gid (m ∷ members) =
    if str_eq m user then gid ∷ hits user gid members else hits user gid members

abbrev pub memberships : CString → List Group → List ℕ
memberships user [] = []
memberships user (g ∷ rest) = hits user g.gr_gid g.gr_mem ++ memberships user rest

-- What an array of the fixed size can take.
abbrev pub capped : List ℕ → Option (List ℕ)
capped groups = if ltb groups_size (length groups) then none else some groups

scan_members-capped :
    (user : CString) (gid : ℕ) (members : List CString) (groups : List ℕ)
    → length groups ≤ groups_size
    → scan_members user gid members groups ≡ capped (groups ++ hits user gid members)
unfolding scan_members push
scan_members-capped user gid [] groups h = rw append-nil (ground arith)
scan_members-capped user gid (m ∷ members) groups h = elim (Bool-cases (str_eq m user)) [
  | inr miss ↦ rw miss (scan_members-capped user gid members groups h)
  | inl hit ↦ elim (Bool-cases (ltb (length groups) groups_size)) [
    | inl room ↦
        let longer : length (groups ++ gid ∷ []) ≤ groups_size =
          ground (arith, length-append groups (gid ∷ [])) in
        rw (hit, push, room)
          (scan_members-capped user gid members (groups ++ gid ∷ []) longer
            ∙ ap capped (append_assoc groups (gid ∷ []) (hits user gid members)))
    | inr full ↦
        rw (hit, push, full) (ground (arith, length-append groups (gid ∷ hits user gid members)))
  ]
]

scan_groups-capped :
    (user : CString) (database : List Group) (groups : List ℕ)
    → length groups ≤ groups_size
    → scan_groups user database groups ≡ capped (groups ++ memberships user database)
unfolding scan_groups
scan_groups-capped user [] groups h = rw append-nil (ground arith)
scan_groups-capped user (g ∷ rest) groups h =
    let here = hits user g.gr_gid g.gr_mem in
    elim (Bool-cases (ltb groups_size (length (groups ++ here)))) [
      | inl over ↦
          rw (scan_members-capped user g.gr_gid g.gr_mem groups h, over)
            (ground (
              arith,
              length-append groups here,
              length-append groups (here ++ memberships user rest),
              length-append here (memberships user rest),
            ))
      | inr fits ↦
          rw (scan_members-capped user g.gr_gid g.gr_mem groups h, fits)
            (scan_groups-capped user rest (groups ++ here) (ground arith)
              ∙ ap capped (append_assoc groups here (memberships user rest)))
    ]

-- The list for setgroups() is the given group and then the group of every listing of the user, in
-- the order of the database. When these are more than 1024, the array is written past its end.
pub group_list-memberships :
    (user : CString) (group : ℕ) (database : List Group)
    → group_list user group database ≡ capped (group ∷ memberships user database)
unfolding group_list
group_list-memberships user group database =
    scan_groups-capped user database (group ∷ []) (omega arith)
