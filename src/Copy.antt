-- ===== src/Copy.antt =====
-- 13-file-io-buffering/copy.c
pub mod Laws
pub mod Partial
mod Tests
use linux_programming_interf.Common.{
  ℕ, zero, suc, Bool, true, false, ◌||◌, not, Option, none, some, List, [], ◌∷◌, String, CString,
  codes, str_eq, ◌==◌, length, if◌then◌else◌,
}
use linux_programming_interf.Common.Output.{text, str}
use linux_programming_interf.Files.{Calls}

abbrev pub buf_size : ℕ
buf_size = 1024

-- O_CREAT | O_WRONLY | O_TRUNC, and rw-rw-rw-
abbrev pub open_flags : ℕ
open_flags = 0o1101

abbrev pub file_perms : ℕ
file_perms = 0o666

module _ (C : Calls) where
  open C use {World, open_file, read, write, close, print}

  -- The body of the loop, for the bytes that were read.
  unfoldable pub put : ℕ → List ℕ → World → World
  put output_fd buf w =
      let (n, w') = write output_fd buf w in
      elim n [
        | none ↦ print (text "couldn't write whole buffer" ∷ []) w'
        | some k ↦
            if k == length buf then w' else print (text "couldn't write whole buffer" ∷ []) w'
      ]

  -- The `while` loop, with fuel for its rounds; `none` means that the fuel ran out. The message
  -- of a failed read() is that of the test behind the loop.
  unfoldable pub transfer : ℕ → ℕ → ℕ → World → Option World
  transfer zero input_fd output_fd w = none
  transfer (suc fuel) input_fd output_fd w =
      let (num_read, w') = read input_fd buf_size w in
      elim num_read [
        | none ↦ some (print (text "read" ∷ []) w')
        | some [] ↦ some w'
        | some (b ∷ bs) ↦ transfer fuel input_fd output_fd (put output_fd (b ∷ bs) w')
      ]

  abbrev close_file : String → ℕ → World → World
  close_file message fd w =
      let (done, w') = close fd w in if done then w' else print (text message ∷ []) w'

  -- A descriptor as an int: -1 is its 32-bit pattern.
  abbrev pub as_int : Option ℕ → ℕ
  as_int none = 0xffff_ffff
  as_int (some fd) = fd

  -- The exit status and the last world. A failed open() of the input is reported, and the
  -- program goes on with the descriptor -1.
  unfoldable pub main : ℕ → List CString → World → Option (ℕ × World)
  unfolding transfer put
  main fuel (program ∷ old ∷ new ∷ []) w0 =
      if str_eq old (codes "--help")
      then some (0, print (str program ∷ text " old-file new-file\n" ∷ []) w0)
      else (let (opened, w1) = open_file old 0 0 w0 in
          let input_fd = as_int opened in
          let w2 =
            if input_fd == 0xffff_ffff
            then print (text "opening file " ∷ str old ∷ []) w1
            else w1 in
          let (created, w3) = open_file new open_flags file_perms w2 in
          elim created [
            | none ↦ some (0, print (text "opening file " ∷ str new ∷ []) w3)
            | some output_fd ↦ elim (transfer fuel input_fd output_fd w3) [
              | none ↦ none
              | some w4 ↦
                  some
                    (0, close_file "close output" output_fd (close_file "close input" input_fd w4))
            ]
          ])
  main fuel (program ∷ _) w0 = some (0, print (str program ∷ text " old-file new-file\n" ∷ []) w0)
  main fuel [] w0 = some (0, print (text " old-file new-file\n" ∷ []) w0)
