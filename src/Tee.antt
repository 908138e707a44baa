-- ===== src/Tee.antt =====
-- 04-file-io-universal-io-model/tee.c. What getopt() returns is a list of option characters.
pub mod Laws
pub mod Whole
mod Tests
use linux_programming_interf.Common.{
  ℕ, zero, suc, Bool, true, false, Option, none, some, List, [], ◌∷◌, CString, codes, ◌==◌, ltb,
  length, if◌then◌else◌,
}
use linux_programming_interf.Common.Outcome.{Run, ok, fault, out_of_fuel}
use linux_programming_interf.Common.Output.{Output, text, str}

-- The calls on streams, which are numbers. The counts that fwrite() and fclose() return are not
-- used.
pub record Streams : Type 1 where
  pub World : Type 0
  pub stdout : ℕ
  -- path and mode
  pub fopen : CString → CString → World → Option ℕ × World
  -- The bytes that are put in the buffer.
  pub fread : ℕ → ℕ → World → List ℕ × World
  pub fwrite : ℕ → List ℕ → World → World
  pub fclose : ℕ → World → World
  pub print : Output → World → World

-- The loop of `parse_args`, from `append_mode` on; `none` is the return of 1. The message of
-- getopt's '?' depends on `optopt` and is not told apart, and another character calls abort() and is
-- not returned.
unfoldable pub parse_args : List ℕ → Bool → Option Bool
parse_args [] append_mode = some append_mode
parse_args (c ∷ opts) append_mode = if c == b'a' then parse_args opts true else none

abbrev pub file_mode : Bool → CString
file_mode append_mode = if append_mode then codes "a" else codes "w"

-- The elements of `files`, and the bytes of `buf`.
abbrev pub max_files : ℕ
max_files = 20

abbrev pub buf_size : ℕ
buf_size = 100

module _ (C : Streams) where
  open C use {World, stdout, fopen, fread, fwrite, fclose, print}

  -- The loop that opens the files, from index `i` on: the streams, or `none` where one cannot be
  -- opened. An index behind the array is a fault.
  unfoldable pub open_files : CString → ℕ → List CString → World → Run (Option (List ℕ) × World)
  open_files mode i [] w = ok (some [], w)
  open_files mode i (path ∷ paths) w =
      let (opened, w1) = fopen path mode w in
      elim opened [
        | none ↦
            (let message =
                text "Unable to open file " ∷ str path ∷ text " for mode " ∷ str mode ∷ [] in
              ok (none, print message w1))
        | some file ↦
            (if ltb i max_files
              then (elim (open_files mode (suc i) paths w1) [
                | out_of_fuel ↦ out_of_fuel
                | fault ↦ fault
                | ok (none, w2) ↦ ok (none, w2)
                | ok (some files, w2) ↦ ok (some (file ∷ files), w2)
              ])
              else fault)
      ]

  -- The loop over `files` for the bytes of the buffer.
  unfoldable pub put_each : List ℕ → List ℕ → World → World
  put_each [] bytes w = w
  put_each (file ∷ files) bytes w = put_each files bytes (fwrite file bytes w)

  -- The copying loop, with fuel for its rounds.
  unfoldable pub copy : ℕ → ℕ → List ℕ → World → Run World
  unfolding put_each
  copy zero not_stdin files w = out_of_fuel
  copy (suc fuel) not_stdin files w =
      let (bytes, w') = fread not_stdin buf_size w in
      elim bytes [
        | [] ↦ ok w'
        | b ∷ bs ↦ copy fuel not_stdin files (put_each files (b ∷ bs) (fwrite stdout (b ∷ bs) w'))
      ]

  unfoldable pub close_each : List ℕ → World → World
  close_each [] w = w
  close_each (file ∷ files) w = close_each files (fclose file w)

  -- The exit status. Where a file cannot be opened the cleanup closes as many streams as there are
  -- names, the last of which are not set; a read from a stream that is NULL is a fault, too.
  unfoldable pub main : ℕ → List ℕ → List CString → World → Run (ℕ × World)
  unfolding parse_args open_files copy close_each
  main fuel opts names w0 = elim (parse_args opts false) [
    | none ↦ ok (1, w0)
    | some append_mode ↦ elim (open_files (file_mode append_mode) 0 names w0) [
      | out_of_fuel ↦ out_of_fuel
      | fault ↦ fault
      | ok (none, w1) ↦ fault
      | ok (some files, w1) ↦
          (let (opened, w2) = fopen (codes "tee.c") (codes "r") w1 in
            elim opened [
              | none ↦ fault
              | some not_stdin ↦ elim (copy fuel not_stdin files w2) [
                | out_of_fuel ↦ out_of_fuel
                | fault ↦ fault
                | ok w3 ↦ ok (0, close_each files w3)
              ]
            ])
    ]
  ]
