-- ===== src/Tail/Tests.antt =====
-- A run of 13-file-io-buffering/tail.c on a file in memory.
use linux_programming_interf.Common.{
  length, ◌≤◌, ℕ, ◌≡◌, refl, ◌==◌, if◌then◌else◌, Option, none, some, List, [], ◌∷◌, ◌++◌, CString,
  arith, ◌<◌, ◌⊎◌,
}
use linux_programming_interf.Common.Int.{pos}
use linux_programming_interf.Files.{Calls}
use linux_programming_interf.Files.Written.{filled}
use linux_programming_interf.Files.Ram.{Ram, ram, ram-IsRegular, ram-IsReliable, ram-IsFull}
use linux_programming_interf.Common.Outcome.{fault}
use linux_programming_interf.Tail.{tail_lines, buffer_size}
use linux_programming_interf.Tail.Text.{str_occurrences}
use linux_programming_interf.Tail.Laws.{at}
use linux_programming_interf.Tail.Lines.{Shows, tail_lines-Shows}

abbrev opener : CString → ℕ → ℕ → Ram → Option ℕ × Ram
opener path flags mode w = (some 3, w)

abbrev calls : Calls
calls = ram opener

abbrev file : CString
file = b'a' ∷ b'\n' ∷ b'b' ∷ b'\n' ∷ []

abbrev disk : Ram
disk fd = if fd == 3 then some (at file 0) else if fd == 1 then some (filled []) else none

abbrev newlines : ℕ
newlines = str_occurrences file b'\n'

tail_lines-Shows_example :
    ((buffer_size ≤ length file) × (tail_lines calls 5 3 (pos 1) disk ≡ fault))
    ⊎ ((newlines < 1) × Shows calls (ram-IsRegular opener) 5 3 disk [] 1 file)
    ⊎ ((newlines ≡ 1) × (tail_lines calls 5 3 (pos 1) disk ≡ fault))
    ⊎ ((1 < newlines)
        × ((p q t : List ℕ) × (file ≡ p ++ t)
            × (p ≡ q ++ b'\n' ∷ [])
            × (str_occurrences t b'\n' ≡ 1)
            × Shows calls (ram-IsRegular opener) 5 3 disk [] 1 t))
tail_lines-Shows_example =
    tail_lines-Shows calls (ram-IsRegular opener) (ram-IsReliable opener) (ram-IsFull opener) 4 3
      disk file [] (omega arith) refl refl
      (
        λ e. absurd (omega (arith, e)),
        (
          λ e. absurd (omega (arith, e)),
          (λ e. absurd (omega (arith, e)), (λ e. absurd (omega (arith, e)), tt)),
        ),
      )
      (omega arith) 1
