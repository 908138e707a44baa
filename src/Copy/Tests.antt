-- ===== src/Copy/Tests.antt =====
-- 13-file-io-buffering/copy.c and 04-file-io-universal-io-model/cpholes.c on files in memory.
use linux_programming_interf.Common.{
  ℕ, ◌≡◌, refl, false, Option, none, some, List, [], ◌∷◌, CString, codes, arith, ◌==◌,
  if◌then◌else◌,
}
use linux_programming_interf.Files.{Calls, View}
use linux_programming_interf.Files.Ram.{Ram, ram, ram-IsRegular, ram-IsReliable}
use linux_programming_interf.Copy.{transfer}
use linux_programming_interf.Files.Written.{filled}
use linux_programming_interf.Copy.Laws.{transfer-filled}
use mathlib.Core.List.{Sublist}
use linux_programming_interf.Copy.Partial.{transfer-Sublist}
use linux_programming_interf.CpHoles
use linux_programming_interf.CpHoles.Whole.{Shows, transfer-last_zeroed}

-- open() gives descriptor 3 for "a" and descriptor 4 for any other path.
abbrev opener : CString → ℕ → ℕ → Ram → Option ℕ × Ram
opener path flags mode w = (some (if flags == 0 then 3 else 4), w)

abbrev shown : List ℕ → View
shown s = record { content = s; offset = 0; append = false }

-- Descriptor 3 is open on the bytes, and descriptor 4 on an empty file.
abbrev disk : List ℕ → Ram
disk s fd = if fd == 3 then some (shown s) else if fd == 4 then some (shown []) else none

abbrev calls : Calls
calls = ram opener

holes : (n : ℕ) → Option (ℕ × Ram)
unfolding CpHoles.main
holes n = CpHoles.main calls 9 (codes "p" ∷ codes "a" ∷ codes "b" ∷ []) (disk (1 ∷ 0 ∷ 0 ∷ n ∷ []))

transfer-filled_example :
    (w' : Ram) × (transfer calls 9 3 4 (disk (codes "abc")) ≡ some w')
    × (w' 4 ≡ some (filled (codes "abc")))
    × ((c : View) × (w' 3 ≡ some c) × (c.content ≡ codes "abc"))
transfer-filled_example =
    transfer-filled calls (ram-IsRegular opener) (ram-IsReliable opener) 9 3 4 (disk (codes "abc"))
      (shown (codes "abc")) [] (omega arith) refl refl (omega arith)

transfer-Sublist_example :
    (w' : Ram) × (t : List ℕ) × (transfer calls 9 3 4 (disk (codes "abc")) ≡ some w')
    × (w' 4 ≡ some (filled t))
    × Sublist t (codes "abc")
    × ((c : View) × (w' 3 ≡ some c) × (c.content ≡ codes "abc"))
transfer-Sublist_example =
    transfer-Sublist calls (ram-IsRegular opener) 9 3 4 (disk (codes "abc")) (shown (codes "abc"))
      [] (omega arith) refl refl (omega arith)

-- The last byte of the source is not NUL, and the target differs from it.
transfer-last_zeroed_example :
    (w' : Ram) × (CpHoles.transfer calls 9 3 4 (disk (1 ∷ 0 ∷ 0 ∷ 7 ∷ [])) ≡ some w')
    × Shows calls (ram-IsRegular opener) (ram-IsReliable opener) w' 4 (1 ∷ 0 ∷ 0 ∷ 0 ∷ [])
transfer-last_zeroed_example =
    transfer-last_zeroed calls (ram-IsRegular opener) (ram-IsReliable opener) 9 3 4
      (1 ∷ 0 ∷ 0 ∷ 7 ∷ []) (disk (1 ∷ 0 ∷ 0 ∷ 7 ∷ [])) (omega arith) refl refl (omega arith)
      (omega arith)
