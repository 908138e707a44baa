-- ===== src/WriteBytes.antt =====
-- 13-file-io-buffering/write_bytes.c, as it is compiled without the -D options.
pub mod Laws
mod Tests
use linux_programming_interf.Common.{
  ℕ, zero, suc, ◌+◌, ◌-◌, Bool, true, false, Option, none, some, List, [], ◌∷◌, ◌||◌, String,
  CString, codes, str_eq, ◌==◌, ltb, length, take, if◌then◌else◌,
}
use linux_programming_interf.Common.Int.{ℤ, pos, negsuc}
use linux_programming_interf.Common.Output.{text, str}
use linux_programming_interf.Files.{Calls}

-- O_CREAT | O_WRONLY
abbrev pub open_flags : ℕ
open_flags = 0o101

abbrev pub minimum : ℕ → ℕ → ℕ
minimum a b = if ltb b a then b else a

module _ (C : Calls) where
  open C use {World, open_file, write, close, print}

  -- The loop, with fuel for its rounds; `none` means that the fuel ran out. `buf` is the memory
  -- that malloc() gave, and the result the exit status of a loop that is left by return.
  unfoldable pub write_all : ℕ → List ℕ → ℕ → ℕ → ℕ → World → Option (Option ℕ × World)
  write_all zero buf num_bytes tot_written fd w = none
  write_all (suc fuel) buf num_bytes tot_written fd w =
      let this_write = minimum (length buf) (num_bytes - tot_written) in
      let (result, w') = write fd (take this_write buf) w in
      if ltb tot_written num_bytes
      then elim result [
        | none ↦ some (some 1, print (text "partial/failed write\n" ∷ []) w')
        | some n ↦ elim (n == this_write) [
          | true ↦ write_all fuel buf num_bytes (tot_written + this_write) fd w'
          | false ↦ some (some 1, print (text "partial/failed write\n" ∷ []) w')
        ]
      ]
      else some (none, w)

  -- From the loop to the end.
  unfoldable pub write_and_close : ℕ → List ℕ → ℕ → ℕ → World → Option (ℕ × World)
  unfolding write_all
  write_and_close fuel buf num_bytes fd w = elim (write_all fuel buf num_bytes 0 fd w) [
    | none ↦ none
    | some (left_by, w') ↦ elim left_by [
      | some status ↦ some (status, w')
      | none ↦
          (let (done, w2) = close fd w' in
            if done then some (0, w2) else some (1, print (text "close" ∷ []) w2))
    ]
  ]

  abbrev count : ℤ → ℕ
  count (pos n) = n
  count (negsuc n) = 0

  -- `atoi` and `malloc` are the library's. For a negative size malloc() is asked for more than it
  -- ever gives, and for a negative number of bytes the loop has no round.
  unfoldable pub main :
      (CString → ℤ) → (ℕ → Option (List ℕ)) → ℕ → List CString → World → Option (ℕ × World)
  unfolding write_and_close
  main atoi malloc fuel (program ∷ file ∷ num_bytes ∷ buf_size ∷ []) w0 =
      if str_eq file (codes "--help")
      then some (1, print (str program ∷ text " file num-bytes buf-size\n" ∷ []) w0)
      else elim (allocate (atoi buf_size)) [
        | none ↦ some (1, print (text "malloc\n" ∷ []) w0)
        | some buf ↦
            (let (opened, w1) = open_file file open_flags 0o600 w0 in
              elim opened [
                | none ↦ some (1, print (text "open\n" ∷ []) w1)
                | some fd ↦ write_and_close fuel buf (count (atoi num_bytes)) fd w1
              ])
      ]
    where
      allocate : ℤ → Option (List ℕ)
      allocate (pos n) = malloc n
      allocate (negsuc n) = none
  main atoi malloc fuel (program ∷ _) w =
      some (1, print (str program ∷ text " file num-bytes buf-size\n" ∷ []) w)
  main atoi malloc fuel [] w = some (1, print (text " file num-bytes buf-size\n" ∷ []) w)
