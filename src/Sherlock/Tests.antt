-- ===== src/Sherlock/Tests.antt =====
-- Runs of 12-system-and-process-information/sherlock.c.
use linux_programming_interf.Common.{
  ◌≡◌, ◌↔◌, refl, true, Option, some, List, [], ◌∷◌, CString, codes, str_eq, if◌then◌else◌,
}
use linux_programming_interf.Common.Output.{text, str}
use linux_programming_interf.ProcLib.Status.{key_value}
use linux_programming_interf.Sherlock.{ProcFs, EntryType, directory, link, check_process, main}
use linux_programming_interf.Sherlock.Laws.{SomeLink, check_process_iff}

-- One process, 7, with the descriptor 3 on /a.
abbrev entries : CString → Option (List (CString × EntryType))
entries path = some (
    if str_eq path (codes "/proc")
    then (codes "7", directory) ∷ []
    else (codes ".", directory) ∷ (codes "3", link) ∷ [])

abbrev one_process : ProcFs
one_process = record {
  status = λ path. some (codes "Name:\tsh\n" ∷ codes "Pid:\t7\n" ∷ []);
  entries = entries;
  readlink = λ path size. some (codes "/a");
}

listed :
    main one_process (codes "sherlock" ∷ codes "/a" ∷ [])
    ≡ some (
      0,
      text "Processes with handles to \""
          ∷ str (codes "/a")
          ∷ text "\":\n"
          ∷ str (codes "sh")
          ∷ text " (pid: "
          ∷ str (codes "7")
          ∷ text ")\n"
          ∷ [],
    )
unfolding main key_value str_eq
listed = refl

check_process_iff_example : (check_process one_process (codes "/proc/7") (codes "/a") ≡ true) ↔ (
    (found : List (CString × EntryType)) × (entries (codes "/proc/7/fd") ≡ some found)
    × SomeLink one_process (codes "/a") (codes "/proc/7") found)
check_process_iff_example = check_process_iff one_process b'/' (codes "a") (codes "/proc/7")
