-- ===== src/AtomicAppend/Tests.antt =====
-- Runs of two instances of 05-file-io-further-details/atomic_append.c.
use linux_programming_interf.Common.{
  ◌≡◌, ◌≤◌, ◌↔◌, refl, ℕ, ◌+◌, true, false, Option, none, some, [], ◌∷◌, CString, arith, ◌==◌,
  if◌then◌else◌,
}
use linux_programming_interf.Files.Ram.{Ram, ram, ram-IsRegular, ram-IsReliable}
use linux_programming_interf.AtomicAppend.{write_loop}
use linux_programming_interf.AtomicAppend.Alone.{file, alone, write_loop-Reaches}
use linux_programming_interf.AtomicAppend.Steps.{
  System, looping, SharedFile, IsShared, grown, act, Reaches, start, first_acts, second_acts,
  one_each, finished, Reaches-lost, Reaches-ends, calls, due,
}

-- A file that the calls share as their manual pages say.
abbrev posix : SharedFile
posix = record {
  seek_to_end = λ size. size;
  write_byte = λ append size offset.
      if append then (size + 1, size + 1) else (grown size offset, offset + 1);
}

posix-IsShared : IsShared posix
posix-IsShared = record {
  seek_done = λ size. refl;
  append_done = λ size offset. refl;
  write_done = λ size offset. refl;
}

abbrev after_both : System
after_both = record { size = 9; first = looping 0 false 8; second = looping 0 false 9 }

both_append : Reaches posix true (one_each 7) after_both
unfolding act
both_append = second_acts (first_acts start refl) refl

Reaches-lost_example : Reaches posix false (one_each 7) (finished 8)
Reaches-lost_example = Reaches-lost posix posix-IsShared 7

Reaches-ends_example :
    (calls both_append ≤ due true (one_each 7))
    × ((calls both_append ≡ due true (one_each 7)) ↔ (
        (act posix true after_both.size after_both.first ≡ none)
        × (act posix true after_both.size after_both.second ≡ none)))
Reaches-ends_example =
    Reaches-ends posix true (one_each 7) after_both both_append (omega arith) (omega arith)

abbrev opener : CString → ℕ → ℕ → Ram → Option ℕ × Ram
opener path flags mode w = (some 3, w)

abbrev disk : Ram
disk fd = if fd == 3 then some (file false (b'a' ∷ b'b' ∷ []) 0) else none

write_loop-Reaches_example :
    (w' : Ram) × (o' : ℕ) × (write_loop (ram opener) false 2 0 3 disk ≡ some w')
    × (w' 3 ≡ some (file false (b'a' ∷ b'b' ∷ b'i' ∷ b'i' ∷ []) o'))
    × Reaches posix false (alone 2 2 0 (looping 0 false 0)) (alone 4 0 o' (looping 0 false 0))
write_loop-Reaches_example =
    write_loop-Reaches (ram opener) (ram-IsRegular opener) (ram-IsReliable opener) posix
      posix-IsShared false 2 3 disk (b'a' ∷ b'b' ∷ []) 0 (looping 0 false 0) refl (omega arith)
      (omega arith)
