-- ===== src/WriteBytes/Tests.antt =====
-- Runs of 13-file-io-buffering/write_bytes.c on a file in memory.
use linux_programming_interf.Common.{
  ℕ, ◌≡◌, refl, false, ◌==◌, if◌then◌else◌, Option, none, some, List, [], length, CString, codes,
  arith,
}
use linux_programming_interf.Files.{Calls, View}
use linux_programming_interf.Files.Ram.{Ram, ram, ram-IsRegular, ram-IsReliable}
use linux_programming_interf.Files.Written.{after}
use linux_programming_interf.WriteBytes.{write_all}
use linux_programming_interf.WriteBytes.Laws.{write_all-after, write_all_forever}

abbrev opener : CString → ℕ → ℕ → Ram → Option ℕ × Ram
opener path flags mode w = (some 3, w)

abbrev calls : Calls
calls = ram opener

abbrev new_file : View
new_file = record { content = []; offset = 0; append = false }

abbrev disk : Ram
disk fd = if fd == 3 then some new_file else none

write_all-after_example :
    (w' : Ram) × (bs : List ℕ) × (write_all calls 9 (codes "ab") 5 0 3 disk ≡ some (none, w'))
    × (length bs ≡ 5)
    × (w' 3 ≡ some (after new_file bs))
write_all-after_example =
    write_all-after calls (ram-IsRegular opener) (ram-IsReliable opener) 9 (codes "ab") 5 0 3 disk
      new_file (omega arith) refl refl (omega arith)

write_all_forever_example : write_all calls 50 [] 5 0 3 disk ≡ none
write_all_forever_example =
    write_all_forever calls (ram-IsRegular opener) (ram-IsReliable opener) 50 5 0 3 disk new_file
      (omega arith) refl
