-- ===== src/ProcList/Laws.antt =====
-- Which processes 12-system-and-process-information/proclist.c lists.
use linux_programming_interf.Common.{
  ◌≡◌, Option, none, some, ◌⊎◌, List, [], ◌∷◌, ◌++◌, CString, codes, str_eq, if◌then◌else◌,
}
use linux_programming_interf.Common.Output.{Output, text, str}
use linux_programming_interf.ProcLib.Status.{key_value}

-- `t` stands somewhere in `s`.
abbrev pub Contains : CString → CString → Type 0
Contains s t = (a z : CString) × (s ≡ a ++ (t ++ z))

abbrev pub newer : CString → Option CString → Option (Option (CString × CString)) → Option CString
newer key found none = found
newer key found (some none) = found
newer key found (some (some (k, value))) = if str_eq k key then some value else found

-- No line makes trim() read in front of it.
abbrev pub Parse : List CString → Type 0
Parse [] = Unit
Parse (line ∷ lines) =
    ((parsed : Option (CString × CString)) × (key_value line ≡ some parsed)) × Parse lines

-- A line with the key "Uid" whose value has `uidstr` somewhere in it.
abbrev pub IsUidLine : CString → CString → Type 0
IsUidLine uidstr line =
    (value : CString) × (key_value line ≡ some (some (codes "Uid", value))) × Contains value uidstr

abbrev pub SomeLine : CString → List CString → Type 0
SomeLine uidstr [] = ⊥
SomeLine uidstr (line ∷ lines) = IsUidLine uidstr line ⊎ SomeLine uidstr lines

-- The value of the last line with the key, or what was found in front of these lines.
abbrev pub last_value : CString → Option CString → List CString → Option CString
last_value key found [] = found
last_value key found (line ∷ lines) = last_value key (newer key found (key_value line)) lines

-- What is printed for a process, by the lines of its status file.
abbrev pub Lists : CString → List CString → Option Output → Type 0
Lists uidstr lines printed =
    (¬ SomeLine uidstr lines × (printed ≡ some []))
    ⊎ (SomeLine uidstr lines
        × ((last_value (codes "Pid") none lines ≡ none)
            ⊎ (last_value (codes "Name") none lines ≡ none))
        × (printed ≡ none))
    ⊎ (SomeLine uidstr lines
        × ((pid name : CString) × (last_value (codes "Pid") none lines ≡ some pid)
            × (last_value (codes "Name") none lines ≡ some name)
            × (printed ≡ some (str pid ∷ text ": " ∷ str name ∷ text "\n" ∷ []))))
