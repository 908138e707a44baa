-- ===== src/AppendSeek.antt =====
-- 05-file-io-further-details/append_seek.c
pub mod Laws
use linux_programming_interf.Common.{ℕ, Option, none, some, List, [], ◌∷◌, ◌++◌, CString, codes}
use linux_programming_interf.Common.Int.{pos}
use linux_programming_interf.Common.Output.{text}
use linux_programming_interf.Files.{Calls, seek_set}

-- PATTERN with the NUL that sizeof counts
abbrev pub pattern : CString
pattern = codes "Hello, world!" ++ 0 ∷ []

-- A descriptor as an int: -1 is its 32-bit pattern.
abbrev pub descriptor : Option ℕ → ℕ
descriptor none = 0xffff_ffff
descriptor (some fd) = fd

module _ (C : Calls) where
  open C use {World, open_file, write, lseek, close, print}

  -- lseek() and write(); their results are not looked at.
  unfoldable pub seek_and_write : ℕ → World → World
  seek_and_write fd w = (write fd pattern (lseek fd (pos 0) seek_set w).1).1

  -- O_RDWR | O_APPEND
  unfoldable pub main : List CString → World → ℕ × World
  unfolding seek_and_write
  main (program ∷ path ∷ []) w =
      let (opened, w') = open_file path 0o2002 0 w in
      let fd = descriptor opened in (0, (close fd (seek_and_write fd w')).1)
  main _ w = (1, print (text "Must specify a file (argument 1)\n" ∷ []) w)
