-- ===== src/Chattr/Kernel.antt =====
-- The system calls of 15-file-attributes/chattr.c, with their documented behaviour.
use linux_programming_interf.Common.{
  ℕ, ◌-◌, ◌^◌, ◌<◌, ◌≡◌, Bool, Option, none, some, String, CString, ◌==◌, ◌&&◌, if◌then◌else◌,
}
use linux_programming_interf.Common.Bits.{test_bit}

-- `none` and `false` stand for the result -1.
pub record Calls : Type 1 where
  pub World : Type 0
  pub open_file : CString → World → Option ℕ × World
  pub get_flags : ℕ → World → Option ℕ × World
  pub set_flags : ℕ → ℕ → World → Bool × World
  pub close : ℕ → World → World
  pub print : String → World → World

-- What the calls do to the open descriptors, each with its inode, and to the inodes' flags.
pub record IsLawful (C : Calls) : Type 0 where
  -- The inode behind an open descriptor.
  pub inode : C.World → ℕ → Option ℕ
  pub flags : C.World → ℕ → ℕ
  pub open_file-flags :
      (f : CString) (w : C.World) (i : ℕ) → flags (C.open_file f w).1 i ≡ flags w i
  pub open_file-inode :
      (f : CString) (w : C.World) {fd : ℕ}
      → (C.open_file f w).0 ≡ some fd
      → (fd < 2 ^ 31) × ((i : ℕ) × (inode (C.open_file f w).1 fd ≡ some i))
  pub get_flags-flags :
      (fd : ℕ) (w : C.World) {i a : ℕ}
      → inode w fd ≡ some i
      → (C.get_flags fd w).0 ≡ some a
      → a ≡ flags w i
  pub get_flags-same : (fd : ℕ) (w : C.World) (i : ℕ) → flags (C.get_flags fd w).1 i ≡ flags w i
  pub get_flags-inode : (fd : ℕ) (w : C.World) (d : ℕ) → inode (C.get_flags fd w).1 d ≡ inode w d
  -- The bits of an inode that FS_IOC_SETFLAGS changes; the file system keeps the others.
  pub modifiable : ℕ → ℕ → Bool
  pub set_flags-bits :
      (fd a : ℕ) (w : C.World) {i : ℕ} (j k : ℕ)
      → inode w fd ≡ some i
      → test_bit k (flags (C.set_flags fd a w).1 j) ≡ (
          if (C.set_flags fd a w).0
          then (if (j == i) && modifiable i k then test_bit k a else test_bit k (flags w j))
          else test_bit k (flags w j))
  -- A descriptor that is not open is refused.
  pub get_flags-closed : (fd : ℕ) (w : C.World) → inode w fd ≡ none → (C.get_flags fd w).0 ≡ none
  pub close-flags : (fd : ℕ) (w : C.World) (i : ℕ) → flags (C.close fd w) i ≡ flags w i
  pub print-flags : (s : String) (w : C.World) (i : ℕ) → flags (C.print s w) i ≡ flags w i
  pub print-inode : (s : String) (w : C.World) (d : ℕ) → inode (C.print s w) d ≡ inode w d
  -- The descriptor -1 is never open.
  pub inode-minus_one : (w : C.World) → inode w (2 ^ 32 - 1) ≡ none
