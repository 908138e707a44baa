-- ===== src/VectorIo/Tests.antt =====
-- Runs of writev() and readv() on files in memory.
use linux_programming_interf.Common.{
  ℕ, ◌+◌, ◌-◌, ◌^◌, ◌≤◌, ◌≡◌, refl, ◌⊎◌, ◌↔◌, true, false, Option, none, some, List, [], ◌∷◌, take,
  length, arith, CString, codes, ◌==◌, if◌then◌else◌,
}
use linux_programming_interf.Common.Int.{pos, negsuc}
use linux_programming_interf.Files.{Calls, View, seek_set}
use linux_programming_interf.Files.Ram.{Ram, ram, ram-IsRegular, ram-IsReliable, ram-IsFull}
use linux_programming_interf.VectorIo.RoundTrip.{write_vecs-read_vecs}
use linux_programming_interf.VectorIo.{IoVec, write_vecs, read_vecs, lengths_fit, ssize_max}
use linux_programming_interf.Files.Written.{after}
use linux_programming_interf.VectorIo.Laws.{gathered, write_vecs-after}
use linux_programming_interf.VectorIo.Scatter.{overlaid, read_vecs-overlaid}
use linux_programming_interf.VectorIo.Limits.{total, lengths_fit_iff}

abbrev opener : CString → ℕ → ℕ → Ram → Option ℕ × Ram
opener path flags mode w = (some 3, w)

abbrev calls : Calls
calls = ram opener

abbrev stored_bytes : View
stored_bytes = record { content = codes "abcdefg"; offset = 1; append = false }

abbrev disk : Ram
disk fd = if fd == 3 then some stored_bytes else none

abbrev vecs : List IoVec
vecs =
    record { iov_base = codes "uv"; iov_len = 2 }
    ∷ record { iov_base = codes "xyz"; iov_len = 3 }
    ∷ []

write_vecs-after_example :
    (n : ℕ) × (n ≤ length (gathered vecs))
    × ((write_vecs calls 3 vecs 0 disk).1 3 ≡ some (after stored_bytes (take n (gathered vecs))))
    × (((write_vecs calls 3 vecs 0 disk).0 ≡ pos (0 + n))
        ⊎ ((write_vecs calls 3 vecs 0 disk).0 ≡ negsuc 0))
write_vecs-after_example =
    write_vecs-after calls (ram-IsRegular opener) 3 vecs 0 disk stored_bytes
      ((refl, omega arith), ((refl, omega arith), tt)) refl refl

written_whole : (write_vecs calls 3 vecs 0 disk).0 ≡ pos 5
unfolding write_vecs
written_whole = refl

read_vecs-overlaid_example :
    (n : ℕ) × (gathered (read_vecs calls 3 vecs 0 disk).1.0
      ≡ overlaid n (codes "bcdefg") (gathered vecs))
    × ((read_vecs calls 3 vecs 0 disk).1.1 3 ≡ some (record stored_bytes { offset = 1 + n }))
    × (((read_vecs calls 3 vecs 0 disk).0 ≡ pos (0 + n))
        ⊎ ((read_vecs calls 3 vecs 0 disk).0 ≡ negsuc 0))
read_vecs-overlaid_example =
    read_vecs-overlaid calls (ram-IsRegular opener) 3 vecs 0 disk stored_bytes
      ((refl, omega arith), ((refl, omega arith), tt)) refl

lengths_fit_iff_example : (lengths_fit 0 vecs ≡ true) ↔ (0 + total vecs ≤ ssize_max)
lengths_fit_iff_example = lengths_fit_iff 0 vecs (omega arith, (omega arith, tt)) (omega arith)

-- Two lengths whose sum wraps around at 2 ^ 64 pass the test.
wrapping_lengths :
    lengths_fit 0 (
      record { iov_base = []; iov_len = ssize_max }
      ∷ record { iov_base = []; iov_len = 2 ^ 64 - 1 }
      ∷ [])
    ≡ true
unfolding lengths_fit
wrapping_lengths = refl

-- The same five bytes, split in another way.
abbrev into : List IoVec
into =
    record { iov_base = codes "."; iov_len = 1 }
    ∷ record { iov_base = codes "...."; iov_len = 4 }
    ∷ []

write_vecs-read_vecs_example :
    gathered
      (read_vecs calls 3 into 0
        (calls.lseek 3 (pos 1) seek_set (write_vecs calls 3 vecs 0 disk).1).1).1.0
    ≡ gathered vecs
write_vecs-read_vecs_example =
    write_vecs-read_vecs calls (ram-IsRegular opener) (ram-IsReliable opener) (ram-IsFull opener) 3
      vecs into disk stored_bytes ((refl, omega arith), ((refl, omega arith), tt))
      ((refl, omega arith), ((refl, omega arith), tt)) refl refl (omega arith) refl
