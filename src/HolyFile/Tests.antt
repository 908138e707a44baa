-- ===== src/HolyFile/Tests.antt =====
-- A run of 04-file-io-universal-io-model/holy_file.c on a file in memory.
use linux_programming_interf.Common.{
  ℕ, ◌≡◌, refl, true, ◌==◌, if◌then◌else◌, Option, none, some, [], ◌++◌, CString, arith,
}
use linux_programming_interf.Common.Int.{pos}
use linux_programming_interf.Files.{Calls}
use linux_programming_interf.Files.Ram.{Ram, ram, ram-IsRegular, ram-IsReliable}
use linux_programming_interf.HolyFile.{write_gaps}
use linux_programming_interf.HolyFile.Laws.{pattern, gaps, ahead, write_gaps-holes}

abbrev opener : CString → ℕ → ℕ → Ram → Option ℕ × Ram
opener path flags mode w = (some 3, w)

abbrev calls : Calls
calls = ram opener

abbrev disk : Ram
disk fd = if fd == 3 then some (ahead [] 0) else none

write_gaps-holes_example :
    ((write_gaps calls 3 (pos 5) 2 disk).0 ≡ true)
    × ((write_gaps calls 3 (pos 5) 2 disk).1 3 ≡ some (ahead (pattern 80 0 ++ gaps 5 1) 5))
write_gaps-holes_example =
    write_gaps-holes calls (ram-IsRegular opener) (ram-IsReliable opener) 3 5 1 disk refl
      (omega arith)
