-- ===== src/VectorIo.antt =====
-- 05-file-io-further-details/vector_fileio.c: writev() and readv() over write() and read().
pub mod Laws
pub mod Scatter
pub mod RoundTrip
pub mod Limits
mod Tests
use linux_programming_interf.Common.{
  ℕ, zero, suc, ◌+◌, ◌-◌, ◌%◌, ◌^◌, Bool, true, false, Option, none, some, List, [], ◌∷◌, ◌++◌, ltb,
  length, take, drop, if◌then◌else◌, ◌*◌, ◌&&◌, ◌==◌, replicate, str_eq, CString,
}
use linux_programming_interf.Common.Int.{ℤ, pos, negsuc}
use linux_programming_interf.Common.Output.{text}
use linux_programming_interf.Files.{Calls, as_int}

-- struct iovec, with the memory at iov_base
pub record IoVec : Type 0 where
  pub iov_base : List ℕ
  pub iov_len : ℕ

abbrev pub einval : ℕ
einval = 22

abbrev pub ssize_max : ℕ
ssize_max = 2 ^ 63 - 1

-- The loop that adds up the lengths in `cnt`, an unsigned long long, up to the first sum that is
-- too large.
unfoldable pub lengths_fit : ℕ → List IoVec → Bool
lengths_fit cnt [] = true
lengths_fit cnt (vec ∷ rest) =
    let cnt' = (cnt + vec.iov_len) % 2 ^ 64 in
    if ltb ssize_max cnt' then false else lengths_fit cnt' rest

-- What the two functions return: the result, and the error number that they set themselves.
pub record Result : Type 0 where
  pub value : ℤ
  pub errno : Option ℕ

abbrev pub plain : ℤ → Result
plain v = record { value = v; errno = none }

abbrev pub invalid : Result
invalid = record { value = negsuc 0; errno = some einval }

module _ (C : Calls) where
  open C use {World, read, write}

  -- The loop of `writev` that writes.
  unfoldable pub write_vecs : ℕ → List IoVec → ℕ → World → ℤ × World
  write_vecs fildes [] total_bytes_written w = (pos total_bytes_written, w)
  write_vecs fildes (vec ∷ rest) total_bytes_written w =
      let (result, w') = write fildes (take vec.iov_len vec.iov_base) w in
      elim (as_int result) [
        | negsuc e ↦ (negsuc e, w')
        | pos bytes_written ↦
            if ltb bytes_written vec.iov_len
            then (pos (total_bytes_written + bytes_written), w')
            else write_vecs fildes rest (total_bytes_written + bytes_written) w'
      ]

  -- `iov` has at least `iovcnt` elements.
  unfoldable pub writev : ℕ → List IoVec → ℤ → World → Result × World
  unfolding write_vecs lengths_fit
  writev fildes iov (negsuc n) w = (invalid, w)
  writev fildes iov (pos iovcnt) w =
      if lengths_fit 0 (take iovcnt iov)
      then (let (v, w') = write_vecs fildes (take iovcnt iov) 0 w in (plain v, w'))
      else (invalid, w)

  -- The memory of a vector after `bytes` are read to its start.
  abbrev pub store : IoVec → List ℕ → IoVec
  store vec bytes = record vec { iov_base = bytes ++ drop (length bytes) vec.iov_base }

  abbrev pub stored : IoVec → Option (List ℕ) → IoVec
  stored vec none = vec
  stored vec (some bytes) = store vec bytes

  abbrev pub count : Option (List ℕ) → Option ℕ
  count none = none
  count (some bytes) = some (length bytes)

  -- The loop of `readv` that reads, with the vectors it leaves.
  unfoldable pub read_vecs : ℕ → List IoVec → ℕ → World → ℤ × (List IoVec × World)
  read_vecs fildes [] total_bytes_read w = (pos total_bytes_read, ([], w))
  read_vecs fildes (vec ∷ rest) total_bytes_read w =
      let (result, w') = read fildes vec.iov_len w in
      let vec' = stored vec result in
      elim (as_int (count result)) [
        | negsuc e ↦ (negsuc e, (vec' ∷ rest, w'))
        | pos bytes_read ↦
            if ltb bytes_read vec.iov_len
            then (pos (total_bytes_read + bytes_read), (vec' ∷ rest, w'))
            else (let (v, out) = read_vecs fildes rest (total_bytes_read + bytes_read) w' in
                let (vecs, last) = out in (v, (vec' ∷ vecs, last)))
      ]

  unfoldable pub readv : ℕ → List IoVec → ℤ → World → Result × (List IoVec × World)
  unfolding read_vecs lengths_fit
  readv fildes iov (negsuc n) w = (invalid, (iov, w))
  readv fildes iov (pos zero) w = (invalid, (iov, w))
  readv fildes iov (pos (suc n)) w =
      if lengths_fit 0 (take (suc n) iov)
      then (let (v, out) = read_vecs fildes (take (suc n) iov) 0 w in
          let (vecs, last) = out in (plain v, (vecs ++ drop (suc n) iov, last)))
      else (invalid, (iov, w))

-- 100 vectors of 16 bytes: zeros to read into, and the numbers of the vectors to write.
abbrev pub number_vecs : ℕ
number_vecs = 100

abbrev pub chunk_size : ℕ
chunk_size = 16

-- memset() of a new chunk
abbrev pub chunk : ℕ → IoVec
chunk b = record { iov_base = replicate chunk_size b; iov_len = chunk_size }

unfoldable pub read_iovecs : ℕ → List IoVec
read_iovecs zero = []
read_iovecs (suc n) = chunk 0 ∷ read_iovecs n

-- The chunks from the `i`-th on.
unfoldable pub write_iovecs : ℕ → ℕ → List IoVec
write_iovecs i zero = []
write_iovecs i (suc n) = chunk (i % 256) ∷ write_iovecs (suc i) n

abbrev pub same_memory : List IoVec → List IoVec → Bool
same_memory (a ∷ xs) (b ∷ ys) = str_eq a.iov_base b.iov_base && same_memory xs ys
same_memory _ _ = true

abbrev is_total : ℤ → Bool
is_total (pos n) = n == number_vecs * chunk_size
is_total (negsuc n) = false

-- A descriptor as an int: -1 is its 32-bit pattern.
abbrev descriptor : Option ℕ → ℕ
descriptor none = 0xffff_ffff
descriptor (some fd) = fd

module _ (C : Calls) where
  open C use {World, open_file, close, print}

  -- The exit status and the last world; `none` is a failed assertion, or no path.
  unfoldable pub main : List CString → World → Option (ℕ × World)
  unfolding writev readv read_iovecs write_iovecs
  main (program ∷ path ∷ _) w0 =
      let (opened, w1) = open_file path 0o101 0o600 w0 in
      let vecs = write_iovecs 0 number_vecs in
      let (wrote, w2) = writev C (descriptor opened) vecs (pos number_vecs) w1 in
      if is_total wrote.value
      then (let (_, w3) = close (descriptor opened) w2 in
          let (again, w4) = open_file path 0 0 w3 in
          let (got, out) =
            readv C (descriptor again) (read_iovecs number_vecs) (pos number_vecs) w4 in
          let (back, w5) = out in
          if is_total got.value && same_memory vecs back
          then some (0, print (text "Done... no assertion errors\n" ∷ []) w5)
          else none)
      else none
  main _ w = none
