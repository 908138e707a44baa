-- ===== src/Common/Output.antt =====
-- What a program prints: the pieces of its printf() calls, in order.
use Prim.Native.Nat.{ℕ}
use Prim.Native.String.{String}
use mathlib.Core.List.{List}
use linux_programming_interf.Common.Text.{CString}

pub data Piece : Type 0 where
  text : String → Piece
  str : CString → Piece
  num : ℕ → Piece

abbrev pub Output : Type 0
Output = List Piece
