-- ===== src/HolyFile.antt =====
-- 04-file-io-universal-io-model/holy_file.c
pub mod Laws
mod Tests
use linux_programming_interf.Common.{
  ℕ, zero, suc, ◌+◌, ◌%◌, Bool, true, false, ◌||◌, Option, none, some, List, [], ◌∷◌, CString,
  codes, str_eq, ◌==◌, length, get_or, if◌then◌else◌,
}
use linux_programming_interf.Common.Int.{ℤ, pos, negsuc}
use linux_programming_interf.Common.Output.{text}
use linux_programming_interf.Files.{Calls, as_int, seek_cur}

abbrev pub pattern_chunk_size : ℕ
pattern_chunk_size = 80

abbrev pub test_pattern : CString
test_pattern = codes "1234567890_HelloWorld\n"

-- O_CREAT | O_WRONLY | O_TRUNC, and rw-r--rw-
abbrev pub open_flags : ℕ
open_flags = 0o1101

abbrev pub file_perms : ℕ
file_perms = 0o646

abbrev pub is_zero : ℤ → Bool
is_zero (pos n) = n == 0
is_zero (negsuc n) = false

-- The rounds of the loop for a number of gaps.
abbrev pub rounds : ℤ → ℕ
rounds (pos n) = n
rounds (negsuc n) = 0

-- The byte of the pattern for the index `i`.
abbrev pub pattern_byte : ℕ → ℕ
pattern_byte i = get_or test_pattern (i % length test_pattern) 0

module _ (C : Calls) where
  open C use {World, open_file, write, lseek, close, print}

  -- The inner loop for `k` rounds from the index `i` on.
  unfoldable pub write_chunk : ℕ → ℕ → ℕ → World → World
  write_chunk output_fd zero i w = w
  write_chunk output_fd (suc k) i w =
      write_chunk output_fd k (suc i) (write output_fd (pattern_byte i ∷ []) w).1

  -- The outer loop; `false` is the return of 1. The result of lseek() is looked at as an int.
  unfoldable pub write_gaps : ℕ → ℤ → ℕ → World → Bool × World
  unfolding write_chunk
  write_gaps output_fd gap_size zero w = (true, w)
  write_gaps output_fd gap_size (suc n) w =
      let (err, w') =
        lseek output_fd gap_size seek_cur (write_chunk output_fd pattern_chunk_size 0 w) in
      elim (as_int err) [
        | negsuc e ↦ (false, print (text "lseek err: %s\n" ∷ []) w')
        | pos p ↦ write_gaps output_fd gap_size n w'
      ]

  abbrev print_usage : World → World
  print_usage = print (text "Usage: ./prog_holyfile <num_gaps> <gap_size> <filename>\n" ∷ [])

  -- `atoi` is the library's.
  unfoldable pub main : (CString → ℤ) → List CString → World → ℕ × World
  unfolding write_gaps
  main atoi (program ∷ num_gaps ∷ gap_size ∷ filename ∷ []) w0 =
      if str_eq num_gaps (codes "--help") || (is_zero (atoi num_gaps) || is_zero (atoi gap_size))
      then (1, print_usage w0)
      else (let (opened, w1) = open_file filename open_flags file_perms w0 in
          elim opened [
            | none ↦ (1, print_usage (print (text "Failed to open output file: %s\n" ∷ []) w1))
            | some output_fd ↦
                (let (done, w2) =
                    write_gaps output_fd (atoi gap_size) (rounds (atoi num_gaps)) w1 in
                  if done then (0, (close output_fd w2).1) else (1, w2))
          ])
  main atoi _ w = (1, print_usage w)
