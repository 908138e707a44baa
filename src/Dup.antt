-- ===== src/Dup.antt =====
-- 05-file-io-further-details/dup.c: dup() and dup2() over fcntl() and close(), which are parameters.
-- A descriptor is an int as its 32-bit pattern.
pub mod Laws
mod Tests
use linux_programming_interf.Common.{
  ℕ, ◌-◌, ◌^◌, Bool, ◌==◌, if◌then◌else◌, Option, none, some, List, [], ◌∷◌, ◌++◌, CString, length,
  drop, replicate, buffer_string,
}
use linux_programming_interf.Common.Options.{◌>>=◌}
use linux_programming_interf.Common.Output.{Output, text, str}

-- What a call returns, or -1 with the errno.
pub data Answer : Type 0 where
  ok : ℕ → Answer
  failed : ℕ → Answer

abbrev pub ebadf : ℕ
ebadf = 9

pub record Calls : Type 1 where
  pub World : Type 0
  -- fcntl() with F_GETFD, and with F_DUPFD and the least new descriptor
  pub get_fd : ℕ → World → Answer
  pub dup_fd : ℕ → ℕ → World → Answer × World
  pub close : ℕ → World → Bool × World

module _ (C : Calls) where
  open C use {World, get_fd, dup_fd, close}

  unfoldable pub dup : ℕ → World → Answer × World
  dup oldfd w = elim (get_fd oldfd w) [ failed e ↦ (failed ebadf, w) | ok flags ↦ dup_fd oldfd 0 w ]

  -- Behind the two tests of `oldfd`.
  unfoldable pub replace : ℕ → ℕ → World → Answer × World
  replace oldfd newfd w = elim (get_fd newfd w) [
    | failed e ↦ if e == ebadf then dup_fd oldfd newfd w else (failed e, w)
    | ok flags ↦ dup_fd oldfd newfd (close newfd w).1
  ]

  unfoldable pub dup2 : ℕ → ℕ → World → Answer × World
  unfolding replace
  dup2 oldfd newfd w = elim (get_fd oldfd w) [
    | failed e ↦ (failed ebadf, w)
    | ok flags ↦ if oldfd == newfd then (ok newfd, w) else replace oldfd newfd w
  ]

-- The int that a call returns.
abbrev pub descriptor : Answer → ℕ
descriptor (ok fd) = fd
descriptor (failed e) = 2 ^ 32 - 1

abbrev pub buf_size : ℕ
buf_size = 30

-- The buffer after a read().
abbrev pub fill : Option (List ℕ) → List ℕ → List ℕ
fill none buf = buf
fill (some bytes) buf = bytes ++ drop (length bytes) buf

module _ (C : Calls) where
  open C use {World, close}

  -- `open_file` is open() with O_RDONLY, and `read` gives the bytes that are put in the buffer.
  -- `none` is the use of `fd2` or of the argument where these are not set.
  unfoldable pub main :
      (CString → World → Answer × World)
      → (ℕ → ℕ → World → Option (List ℕ) × World)
      → (Output → World → World)
      → List CString
      → World
      → Option (ℕ × World)
  unfolding dup buffer_string
  main open_file read print (program ∷ path ∷ []) w0 = do
    let buf = replicate buf_size 0
    let (opened, w1) = open_file path w0
    let fd1 = descriptor opened
    let (copied, w2) = dup C fd1 (print (text "\n" ∷ []) w1)
    let fd2 = descriptor copied
    let (first, w3) = read fd1 20 w2
    s1 ← buffer_string (fill first buf)
    let (second, w4) = read fd2 20 (print (str s1 ∷ []) w3)
    s2 ← buffer_string (fill second (fill first buf))
    some (0, (close fd2 (close fd1 (print (str s2 ∷ text "\n" ∷ []) w4)).1).1)
  main open_file read print _ w0 = none
