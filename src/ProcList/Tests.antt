-- ===== src/ProcList/Tests.antt =====
-- Runs of 12-system-and-process-information/proclist.c.
use linux_programming_interf.Common.{◌≡◌, refl, Option, some, List, [], ◌∷◌, CString, codes, str_eq}
use linux_programming_interf.Common.Output.{text, str}
use linux_programming_interf.ProcLib.Status.{key_value}
use linux_programming_interf.ProcList.{check_dir, strstr}

abbrev lines : List CString
lines =
    codes "Name:\tsh\n" ∷ codes "Pid:\t7\n" ∷ codes "Uid:\t1000\t1000\n" ∷ codes "Groups:\t \n" ∷ []

abbrev status : CString → Option (List CString)
status path = some lines

-- The process of user 1000 is listed for user 1.
wrongly_listed :
    check_dir status (codes "/proc/7") 1
    ≡ some (str (codes "7") ∷ text ": " ∷ str (codes "sh") ∷ text "\n" ∷ [])
unfolding check_dir key_value str_eq strstr
wrongly_listed = refl
