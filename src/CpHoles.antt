-- ===== src/CpHoles.antt =====
-- 04-file-io-universal-io-model/cpholes.c
pub mod Laws
pub mod Whole
use linux_programming_interf.Common.{
  ℕ, zero, suc, ◌+◌, ◌-◌, ◌%◌, ◌^◌, Bool, Option, none, some, List, [], ◌∷◌, CString, codes, str_eq,
  ◌==◌, ltb, length, if◌then◌else◌,
}
use linux_programming_interf.Common.Int.{ℤ, pos, negsuc}
use linux_programming_interf.Common.Output.{text}
use linux_programming_interf.Files.{Calls, seek_set, seek_cur, seek_end}

abbrev pub buf_size : ℕ
buf_size = 1024

-- O_CREAT | O_WRONLY | O_TRUNC, and rw-r--rw-
abbrev pub open_flags : ℕ
open_flags = 0o1101

abbrev pub file_perms : ℕ
file_perms = 0o646

-- An unsigned long as an off_t.
abbrev pub as_off : ℕ → ℤ
as_off n = if ltb n (2 ^ 63) then pos n else negsuc (2 ^ 64 - n - 1)

module _ (C : Calls) where
  open C use {World, open_file, read, write, lseek, close, print}

  -- The body of the inner loop, for one byte; the results of the calls are not looked at.
  unfoldable pub copy_byte : ℕ → ℕ → ℕ × World → ℕ × World
  copy_byte output_fd b (hole_size, w) =
      if b == 0
      then ((hole_size + 1) % 2 ^ 64, w)
      else if ltb 0 hole_size
      then (0, (write output_fd (b ∷ []) (lseek output_fd (as_off hole_size) seek_cur w).1).1)
      else (hole_size, (write output_fd (b ∷ []) w).1)

  -- The inner loop, over the bytes that were read.
  unfoldable pub copy_bytes : ℕ → List ℕ → ℕ × World → ℕ × World
  copy_bytes output_fd [] s = s
  copy_bytes output_fd (b ∷ bs) s = copy_bytes output_fd bs (copy_byte output_fd b s)

  -- The outer loop, with fuel for its rounds; `none` means that the fuel ran out.
  unfoldable pub copy_all : ℕ → ℕ → ℕ → ℕ × World → Option (ℕ × World)
  copy_all zero input_fd output_fd s = none
  copy_all (suc fuel) input_fd output_fd (hole_size, w) =
      let (num_read, w') = read input_fd buf_size w in
      elim num_read [
        | none ↦ some (hole_size, w')
        | some [] ↦ some (hole_size, w')
        | some (b ∷ bs) ↦
            copy_all fuel input_fd output_fd (copy_bytes output_fd (b ∷ bs) (hole_size, w'))
      ]

  -- A result of lseek() as an off_t.
  abbrev pub result_off : Option ℕ → ℤ
  result_off none = negsuc 0
  result_off (some p) = pos p

  -- The calls behind the loops, up to the last write().
  unfoldable pub finish : ℕ → ℕ → World → World
  finish input_fd output_fd w =
      let (last_apparent_byte, w1) = lseek input_fd (negsuc 0) seek_end w in
      let (_, w2) = lseek output_fd (result_off last_apparent_byte) seek_set w1 in
      (write output_fd (0 ∷ []) w2).1

  -- From the first read() to the last write().
  unfoldable pub transfer : ℕ → ℕ → ℕ → World → Option World
  transfer fuel input_fd output_fd w = elim (copy_all fuel input_fd output_fd (0, w)) [
    | none ↦ none
    | some (_, w') ↦ some (finish input_fd output_fd w')
  ]

  abbrev print_usage : World → World
  print_usage = print (text "Usage: ./prog_cpholes <src> <dst>\n" ∷ [])

  -- The exit status and the last world.
  unfoldable pub main : ℕ → List CString → World → Option (ℕ × World)
  unfolding transfer finish copy_all copy_bytes copy_byte
  main fuel (program ∷ src ∷ dst ∷ []) w0 =
      if str_eq src (codes "--help")
      then some (1, print_usage w0)
      else (let (opened, w1) = open_file src 0 0 w0 in
          elim opened [
            | none ↦ some (1, print_usage (print (text "Failed to open input file: %s\n" ∷ []) w1))
            | some input_fd ↦
                let (created, w2) = open_file dst open_flags file_perms w1 in
                elim created [
                  | none ↦
                      some
                        (1, print_usage (print (text "Failed to open output file: %s\n" ∷ []) w2))
                  | some output_fd ↦ elim (transfer fuel input_fd output_fd w2) [
                    | none ↦ none
                    | some w3 ↦ some (0, (close output_fd (close input_fd w3).1).1)
                  ]
                ]
          ])
  main fuel _ w0 = some (1, print_usage w0)
