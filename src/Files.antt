-- ===== src/Files.antt =====
-- The file system calls of the programs, as parameters, with their documented behaviour on regular
-- files.
pub mod Spliced
pub mod Ram
pub mod Written
use linux_programming_interf.Common.{
  ℕ, suc, ◌+◌, ◌-◌, ◌≤◌, ◌<◌, ◌^◌, ◌%◌, ltb, ◌≡◌, ◌≢◌, Bool, Option, none, some, List, [], ◌∷◌,
  ◌++◌, CString, length, take, drop, leb, if◌then◌else◌,
}
use linux_programming_interf.Common.Int.{ℤ, pos, negsuc}
use linux_programming_interf.Common.Output.{Output}
use Spliced.{splice}

pub data Whence : Type 0 where
  seek_set seek_cur seek_end : Whence

-- `none` and `false` stand for the result -1. A descriptor is a number below 2 ^ 31.
pub record Calls : Type 1 where
  pub World : Type 0
  -- path, flags and permissions
  pub open_file : CString → ℕ → ℕ → World → Option ℕ × World
  -- The bytes that are put in the buffer.
  pub read : ℕ → ℕ → World → Option (List ℕ) × World
  pub write : ℕ → List ℕ → World → Option ℕ × World
  pub lseek : ℕ → ℤ → Whence → World → Option ℕ × World
  pub close : ℕ → World → Bool × World
  pub print : Output → World → World

-- The ssize_t or off_t that a call returns, in an int.
abbrev pub as_int : Option ℕ → ℤ
as_int none = negsuc 0
as_int (some n) =
    if ltb (n % 2 ^ 32) (2 ^ 31) then pos (n % 2 ^ 32) else negsuc (2 ^ 32 - 1 - n % 2 ^ 32)

-- An open file description of a regular file: the bytes of the file, the file offset, and whether
-- O_APPEND is set.
pub record View : Type 0 where
  pub content : List ℕ
  pub offset : ℕ
  pub append : Bool

-- write(): at the offset, or at the end with O_APPEND. A write of no bytes has no effect.
abbrev pub written : View → List ℕ → View
written v bs =
    let start = if v.append then length v.content else v.offset in
    record v { content = splice v.content start bs; offset = start + length bs }

abbrev pub base : View → Whence → ℕ
base v seek_set = 0
base v seek_cur = v.offset
base v seek_end = length v.content

-- The new offset of lseek(), or EINVAL where it would be negative.
abbrev pub seek : View → ℤ → Whence → Option ℕ
seek v (pos n) whence = some (base v whence + n)
seek v (negsuc n) whence =
    if leb (suc n) (base v whence) then some (base v whence - suc n) else none

-- The calls on descriptors of regular files, no two of which are open on one file.
pub record IsRegular (C : Calls) : Type 0 where
  pub view : C.World → ℕ → Option View
  pub read-some :
      (fd n : ℕ) (w : C.World) {v : View} {bs : List ℕ}
      → view w fd ≡ some v
      → (C.read fd n w).0 ≡ some bs
      → (length bs ≤ n)
        × (bs ≡ take (length bs) (drop v.offset v.content))
        × (0 < n → bs ≡ [] → length v.content ≤ v.offset)
        × (view (C.read fd n w).1 fd ≡ some (record v { offset = v.offset + length bs }))
  pub write-some :
      (fd : ℕ) (bs : List ℕ) (w : C.World) {v : View} {n : ℕ}
      → view w fd ≡ some v
      → (C.write fd bs w).0 ≡ some n
      → (n ≤ length bs)
        × ((n ≡ 0) → view (C.write fd bs w).1 fd ≡ some v)
        × (0 < n → view (C.write fd bs w).1 fd ≡ some (written v (take n bs)))
  pub lseek-some :
      (fd : ℕ) (off : ℤ) (whence : Whence) (w : C.World) {v : View} {p : ℕ}
      → view w fd ≡ some v
      → seek v off whence ≡ some p
      → p < 2 ^ 63
      → ((C.lseek fd off whence w).0 ≡ some p)
        × (view (C.lseek fd off whence w).1 fd ≡ some (record v { offset = p }))
  pub lseek-none :
      (fd : ℕ) (off : ℤ) (whence : Whence) (w : C.World) {v : View}
      → view w fd ≡ some v
      → seek v off whence ≡ none
      → ((C.lseek fd off whence w).0 ≡ none) × (view (C.lseek fd off whence w).1 fd ≡ some v)
  -- The other descriptors are left alone, and so are all by a call that fails.
  pub read-frame : (fd n g : ℕ) (w : C.World) → g ≢ fd → view (C.read fd n w).1 g ≡ view w g
  pub read-none :
      (fd n : ℕ) (w : C.World) → (C.read fd n w).0 ≡ none → view (C.read fd n w).1 fd ≡ view w fd
  pub write-frame :
      (fd g : ℕ) (bs : List ℕ) (w : C.World) → g ≢ fd → view (C.write fd bs w).1 g ≡ view w g
  pub write-none :
      (fd : ℕ) (bs : List ℕ) (w : C.World)
      → (C.write fd bs w).0 ≡ none
      → view (C.write fd bs w).1 fd ≡ view w fd
  pub lseek-frame :
      (fd g : ℕ) (off : ℤ) (whence : Whence) (w : C.World)
      → g ≢ fd
      → view (C.lseek fd off whence w).1 g ≡ view w g
  pub print-frame : (o : Output) (w : C.World) (g : ℕ) → view (C.print o w) g ≡ view w g

-- No read or write of an open regular file fails, and every write is whole.
pub record IsReliable (C : Calls) (R : IsRegular C) : Type 0 where
  pub read_done :
      (fd n : ℕ) (w : C.World) {v : View} → R.view w fd ≡ some v → (C.read fd n w).0 ≢ none
  pub write_done :
      (fd : ℕ) (bs : List ℕ) (w : C.World) {v : View}
      → R.view w fd ≡ some v
      → (C.write fd bs w).0 ≡ some (length bs)

-- A read of an open regular file gives all bytes that are there, up to the number asked for.
pub record IsFull (C : Calls) (R : IsRegular C) : Type 0 where
  pub read_full :
      (fd n : ℕ) (w : C.World) {v : View}
      → R.view w fd ≡ some v
      → (C.read fd n w).0 ≡ some (take n (drop v.offset v.content))
