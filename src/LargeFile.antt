-- ===== src/LargeFile.antt =====
-- 05-file-io-further-details/large_file.c
use linux_programming_interf.Common.{
  ℕ, none, some, List, [], ◌∷◌, CString, codes, str_eq, if◌then◌else◌,
}
use linux_programming_interf.Common.Int.{ℤ}
use linux_programming_interf.Common.Output.{text, str}
use linux_programming_interf.Files.{Calls, seek_set}

module _ (C : Calls) where
  open C use {World, open_file, write, lseek, print}

  -- From lseek() to the end, with the exit status.
  unfoldable pub write_at : ℕ → ℤ → World → ℕ × World
  write_at fd off w0 =
      let (moved, w1) = lseek fd off seek_set w0 in
      elim moved [
        | none ↦ (1, print (text "lseek\n" ∷ []) w1)
        | some p ↦
            (let (wrote, w2) = write fd (codes "text") w1 in
              elim wrote [
                | none ↦ (1, print (text "write\n" ∷ []) w2)
                | some n ↦ (0, print (text "Success\n" ∷ []) w2)
              ])
      ]

  abbrev usage : CString → World → ℕ × World
  usage program w = (1, print (str program ∷ text " pathname offset\n" ∷ []) w)

  -- `atoll` is the library's; O_RDWR | O_CREAT, and rw-------.
  unfoldable pub main : (CString → ℤ) → List CString → World → ℕ × World
  unfolding write_at
  main atoll (program ∷ pathname ∷ offset ∷ []) w0 =
      if str_eq pathname (codes "--help")
      then usage program w0
      else (let (opened, w1) = open_file pathname 0o102 0o600 w0 in
          elim opened [
            | none ↦ (1, print (text "open\n" ∷ []) w1)
            | some fd ↦ write_at fd (atoll offset) w1
          ])
  main atoll (program ∷ _) w = usage program w
  main atoll [] w = usage [] w
