-- ===== src/AtomicAppend.antt =====
-- 05-file-io-further-details/atomic_append.c: one instance as a function over the file calls, and
-- two instances on one file as a step relation.
pub mod Steps
pub mod Alone
mod Tests
use linux_programming_interf.Common.{
  ℕ, zero, suc, ◌+◌, Bool, true, false, Option, none, some, List, [], ◌∷◌, CString, if◌then◌else◌,
  ◌^◌, ltb,
}
use linux_programming_interf.Common.Int.{ℤ, pos, negsuc}
use linux_programming_interf.Common.Output.{Output, text, str}
use linux_programming_interf.Files.{Calls, seek_end}

-- O_RDWR | O_CREAT, with O_APPEND unless there is a third argument
abbrev pub flags : Bool → ℕ
flags append = if append then 0o2102 else 0o102

-- How often `i < num_bytes` holds, from 0, for a long.
abbrev pub rounds : ℤ → ℕ
rounds (pos n) = n
rounds (negsuc n) = 0

module _ (C : Calls) where
  open C use {World, open_file, write, lseek, close, print}

  -- The loop, by the rounds that are left and the counter `i`: `none` where the int overflows.
  unfoldable pub write_loop : Bool → ℕ → ℕ → ℕ → World → Option World
  write_loop append zero i fd w = some w
  write_loop append (suc n) i fd w =
      let w' = if append then w else (lseek fd (pos 0) seek_end w).1 in
      let rest = write_loop append n (suc i) fd (write fd (b'i' ∷ []) w').1 in
      if ltb (suc i) (2 ^ 31) then rest else none

  abbrev print_usage : CString → World → World
  print_usage program w =
      print (text "   where x is only checked for existence\n" ∷ [])
        (print (str program ∷ text " <filename> <num-bytes> [x]\n" ∷ []) w)

  -- What follows the test of the number of arguments.
  unfoldable pub append_bytes :
      (CString → ℤ) → CString → CString → CString → Bool → World → Option (ℕ × World)
  unfolding write_loop
  append_bytes atol program filename num_bytes append w0 =
      let (opened, w1) = open_file filename (flags append) 0o600 w0 in
      elim opened [
        | none ↦ some (
          1,
          print_usage program (
              print (text "Could not open specified filename (" ∷ str filename ∷ text ")\n" ∷ [])
                w1),
        )
        | some fd ↦ elim (write_loop append (rounds (atol num_bytes)) 0 fd w1) [
          | none ↦ none
          | some w2 ↦ some (0, (close fd w2).1)
        ]
      ]

  -- `none` where the counter overflows.
  unfoldable pub main : (CString → ℤ) → List CString → World → Option (ℕ × World)
  unfolding append_bytes
  main atol (program ∷ filename ∷ num_bytes ∷ []) w =
      append_bytes atol program filename num_bytes true w
  main atol (program ∷ filename ∷ num_bytes ∷ x ∷ []) w =
      append_bytes atol program filename num_bytes false w
  main atol (program ∷ _) w = some (1, print_usage program w)
  main atol [] w = some (1, print_usage [] w)
