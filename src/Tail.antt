-- ===== src/Tail.antt =====
-- 13-file-io-buffering/tail.c. What getopt() returns is a list of option characters with their
-- arguments. Offsets are those of files shorter than 2 ^ 31 bytes, so that no int overflows.
pub mod Text
pub mod Strings
pub mod Laws
pub mod Lines
mod Tests
use linux_programming_interf.Common.{
  buffer_string, ℕ, zero, suc, ◌+◌, ◌-◌, Bool, true, false, ◌&&◌, Option, none, some, List, [], ◌∷◌,
  ◌++◌, CString, ◌==◌, leb, length, drop, replicate, if◌then◌else◌,
}
use linux_programming_interf.Common.Int.{ℤ, pos, negsuc}
use linux_programming_interf.Common.Output.{Output, text, str}
use linux_programming_interf.Common.Outcome.{Run, ok, fault, out_of_fuel}
use linux_programming_interf.Files.{Calls, seek_set, seek_end}
use Text.{str_occurrences, str_occurrence_offset}

abbrev pub buffer_size : ℕ
buffer_size = 5120

abbrev pub default_number_lines : ℤ
default_number_lines = pos 10

abbrev pub stdout : ℕ
stdout = 1

-- The loop of `parse_options`; `none` is the return of 1. The message of getopt's '?' depends on
-- `optopt` and is not told apart, and another character calls abort() and is not returned.
unfoldable pub parse_loop : (CString → ℤ) → List (ℕ × CString) → ℤ → Option ℤ
parse_loop atoi [] number_lines = some number_lines
parse_loop atoi ((c, optarg) ∷ rest) number_lines =
    if c == b'n' then parse_loop atoi rest (atoi optarg) else none

-- The number of lines and the file name, which is the one argument behind the options.
unfoldable pub parse_options :
    (CString → ℤ) → List (ℕ × CString) → List CString → Option (ℤ × CString)
unfolding parse_loop
parse_options atoi opts (filename ∷ []) = elim (parse_loop atoi opts default_number_lines) [
  | none ↦ none
  | some number_lines ↦ some (number_lines, filename)
]
parse_options atoi opts _ = none

-- a - b
abbrev pub difference : ℕ → ℕ → ℤ
difference a b = if leb b a then pos (a - b) else negsuc (b - a - 1)

-- curline <= number_lines, and curline - number_lines where that is not below 0
abbrev pub at_most : ℕ → ℤ → Bool
at_most curline (pos n) = leb curline n
at_most curline (negsuc n) = false

abbrev pub surplus : ℕ → ℤ → Option ℕ
surplus curline (pos n) = if leb n curline then some (curline - n) else none
surplus curline (negsuc n) = some (curline + suc n)

-- The local variables of the scan: the buffer, `offset` as `forth - back`, and `curline`.
pub record Scan : Type 0 where
  pub buf : List ℕ
  pub forth : ℕ
  pub back : ℕ
  pub curline : ℕ

-- The buffer is zero at first.
abbrev pub start : Scan
start = record { buf = replicate buffer_size 0; forth = 0; back = 0; curline = 0 }

-- What a read() does to the buffer and the offset: -1 is subtracted where it fails.
abbrev pub add_read : Option (List ℕ) → Scan → Scan
add_read none s = record s { forth = s.forth + 1 }
add_read (some bytes) s = record s {
  buf = bytes ++ drop (length bytes) s.buf;
  back = s.back + length bytes;
}

abbrev pub is_full : Option (List ℕ) → Bool
is_full none = false
is_full (some bytes) = length bytes == buffer_size

module _ (C : Calls) where
  open C use {World, open_file, read, write, lseek, print}

  unfoldable pub tail_file : ℕ → ℕ → World → Run World
  tail_file zero fd w = out_of_fuel
  tail_file (suc fuel) fd w =
      let (bytes_read, w') = read fd buffer_size w in
      elim bytes_read [
        | none ↦ ok w'
        | some [] ↦ ok w'
        | some (b ∷ bs) ↦ tail_file fuel fd (write stdout (b ∷ bs) w').1
      ]

  -- The do-while loop, with fuel for its rounds.
  unfoldable pub scan : ℕ → ℕ → ℤ → Scan → World → Run (Scan × World)
  unfolding str_occurrences
  scan zero fd number_lines s w = out_of_fuel
  scan (suc fuel) fd number_lines s w =
      let (numbytes, w') = read fd buffer_size w in
      let s1 = add_read numbytes s in
      elim (buffer_string s1.buf) [
        | none ↦ fault
        | some string ↦
            (let s2 = record s1 { curline = s1.curline + str_occurrences string b'\n' } in
              elim (is_full numbytes && at_most s2.curline number_lines) [
                | false ↦ ok (s2, w')
                | true ↦ scan fuel fd number_lines s2 w'
              ])
      ]

  -- Behind the loop.
  unfoldable pub show_lines : ℕ → ℕ → ℤ → Scan → World → Run World
  unfolding tail_file str_occurrence_offset
  show_lines fuel fd number_lines s w = elim (surplus s.curline number_lines) [
    | none ↦ tail_file fuel fd (lseek fd (pos 0) seek_set w).1
    | some n ↦ elim (buffer_string s.buf) [
      | none ↦ fault
      | some string ↦ elim (str_occurrence_offset string b'\n' n) [
        | none ↦ fault
        | some k ↦ tail_file fuel fd (lseek fd (difference (s.forth + k) s.back) seek_end w).1
      ]
    ]
  ]

  -- From the loop to the end.
  unfoldable pub tail_lines : ℕ → ℕ → ℤ → World → Run World
  unfolding scan show_lines
  tail_lines fuel fd number_lines w = elim (scan fuel fd number_lines start w) [
    | out_of_fuel ↦ out_of_fuel
    | fault ↦ fault
    | ok (s, w') ↦ show_lines fuel fd number_lines s w'
  ]

  abbrev usage : CString → Output
  usage program = text "Usage: " ∷ str program ∷ text " [-n lines] <file>\n" ∷ []

  -- The exit status; `atoi` is the library's.
  unfoldable pub main :
      (CString → ℤ) → ℕ → CString → List (ℕ × CString) → List CString → World → Run (ℕ × World)
  unfolding tail_lines parse_options
  main atoi fuel program opts rest w0 = elim (parse_options atoi opts rest) [
    | none ↦ ok (1, print (usage program) w0)
    | some (number_lines, filename) ↦
        (let (opened, w1) = open_file filename 0 0 w0 in
          elim opened [
            | none ↦ ok (1, print (text "Unable to open '" ∷ str filename ∷ text "'\n" ∷ []) w1)
            | some fd ↦ elim (tail_lines fuel fd number_lines w1) [
              | out_of_fuel ↦ out_of_fuel
              | fault ↦ fault
              | ok w2 ↦ ok (0, w2)
            ]
          ])
  ]
