-- ===== src/AtomicAppend/Alone.antt =====
-- One instance of 05-file-io-further-details/atomic_append.c without another: the loop over the file
-- calls takes the steps of the relation.
use linux_programming_interf.Common.{
  ℕ, zero, suc, ◌+◌, ◌<◌, ◌^◌, ◌≡◌, refl, sym, ap, ◌∙◌, Bool, true, false, some, List, [], ◌∷◌,
  ◌++◌, arith, if◌then◌else◌, length, length-append, replicate, ltb, lt→ltb,
}
use mathlib.Core.List.{append_assoc, append-nil}
use mathlib.Core.Path.{subst}
use linux_programming_interf.Common.Int.{pos}
use linux_programming_interf.Files.{Calls, View, written, seek, seek_end, IsRegular, IsReliable}
use linux_programming_interf.Files.Spliced.{splice_append}
use linux_programming_interf.AtomicAppend.{write_loop}
use linux_programming_interf.AtomicAppend.Steps.{
  Instance, looping, SharedFile, IsShared, act, System, Reaches, start, first_acts, second_acts,
}

abbrev pub file : Bool → List ℕ → ℕ → View
file append s o = record { content = s; offset = o; append = append }

-- The first instance with `n` rounds left, on a file of `size` bytes.
abbrev pub alone : ℕ → ℕ → ℕ → Instance → System
alone size n offset other = record { size = size; first = looping n false offset; second = other }

Reaches_trans :
    {K : SharedFile} {append : Bool} {s t u : System}
    → Reaches K append s t
    → Reaches K append t u
    → Reaches K append s u
Reaches_trans before start = before
Reaches_trans before (first_acts after e) = first_acts (Reaches_trans before after) e
Reaches_trans before (second_acts after e) = second_acts (Reaches_trans before after) e

-- One round: a call with O_APPEND, two without.
Reaches-round :
    (K : SharedFile) (D : IsShared K) (append : Bool) (size n offset : ℕ) (other : Instance)
    → Reaches K append (alone size (suc n) offset other) (alone (size + 1) n (size + 1) other)
unfolding act
Reaches-round K D true size n offset other =
    first_acts start (ap (λ k. some (k.0, looping n false k.1)) (D.append_done size offset))
Reaches-round K D false size n offset other =
    let end : K.write_byte false size size ≡ (size + 1, size + 1) =
      D.write_done size size ∙ ap (λ k. (k, size + 1)) (ground arith) in
    first_acts (first_acts start (ap (λ o. some (size, looping (suc n) true o)) (D.seek_done size)))
      (ap (λ k. some (k.0, looping n false k.1)) end)

-- Sizes that are equal.
Reaches-sizes :
    (K : SharedFile) (append : Bool) (n m o o' : ℕ) (other : Instance) {j k j' k' : ℕ}
    → j ≡ j'
    → k ≡ k'
    → Reaches K append (alone j n o other) (alone k m o' other)
    → Reaches K append (alone j' n o other) (alone k' m o' other)
Reaches-sizes K append n m o o' other {j} {k} {j'} e e' run =
    subst (λ i. Reaches K append (alone j' n o other) (alone i m o' other)) e'
      (subst (λ i. Reaches K append (alone i n o other) (alone k m o' other)) e run)

written_end :
    (append : Bool) (s : List ℕ) (b : ℕ)
    → written (file append s (length s)) (b ∷ []) ≡ file append (s ++ b ∷ []) (length s + 1)
written_end true s b = ap (λ c. file true c (length s + 1)) (splice_append s (b ∷ []))
written_end false s b = ap (λ c. file false c (length s + 1)) (splice_append s (b ∷ []))

module _ (C : Calls) (R : IsRegular C) (D : IsReliable C R) (K : SharedFile) (S : IsShared K) where
  open R use {view}

  -- The write of one round, at the end of the file.
  write-round :
      (append : Bool) (fd : ℕ) (w : C.World) (s : List ℕ) (o : ℕ)
      → view w fd ≡ some (file append s o)
      → length s < 2 ^ 63
      → let w' = if append then w else (C.lseek fd (pos 0) seek_end w).1 in
        view (C.write fd (b'i' ∷ []) w').1 fd ≡ some (file append (s ++ b'i' ∷ []) (length s + 1))
  write-round true fd w s o e room =
      let done = D.write_done fd (b'i' ∷ []) w e in
      (R.write-some fd (b'i' ∷ []) w e done).2 (omega arith) ∙ ap some (written_end true s b'i')
  write-round false fd w s o e room =
      let w1 = (C.lseek fd (pos 0) seek_end w).1 in
      let to_end : seek (file false s o) (pos 0) seek_end ≡ some (length s) =
        ap some (omega arith) in
      let at_end = (R.lseek-some fd (pos 0) seek_end w e to_end room).1 in
      let done = D.write_done fd (b'i' ∷ []) w1 at_end in
      (R.write-some fd (b'i' ∷ []) w1 at_end done).2 (omega arith)
      ∙ ap some (written_end false s b'i')

  write_loop-from :
      (append : Bool) (n i fd : ℕ) (w : C.World) (s : List ℕ) (o : ℕ) (other : Instance)
      → view w fd ≡ some (file append s o)
      → i + n < 2 ^ 31
      → length s + n < 2 ^ 63
      → (w' : C.World) × (o' : ℕ) × (write_loop C append n i fd w ≡ some w')
        × (view w' fd ≡ some (file append (s ++ replicate n b'i') o'))
        × Reaches K append (alone (length s) n o other) (alone (length s + n) 0 o' other)
  unfolding write_loop
  write_loop-from append zero i fd w s o other e count room =
      let same : length s + 0 ≡ length s = omega arith in
      (w, o, refl, e ∙ ap (λ c. some (file append c o)) (sym (append-nil s)), rw same start)
  write_loop-from append (suc n) i fd w s o other e count room =
      let w0 = if append then w else (C.lseek fd (pos 0) seek_end w).1 in
      let w1 = (C.write fd (b'i' ∷ []) w0).1 in
      let one = write-round append fd w s o e (omega arith) in
      let grown_by : length (s ++ b'i' ∷ []) ≡ length s + 1 = length-append s (b'i' ∷ []) in
      let (w', o', run, seen, steps) =
        write_loop-from append n (suc i) fd w1 (s ++ b'i' ∷ []) (length s + 1) other one
          (omega arith) (omega arith) in
      let ends : length (s ++ b'i' ∷ []) + n ≡ length s + suc n = omega arith in
      let rest = Reaches-sizes K append n 0 (length s + 1) o' other grown_by ends steps in
      let below : ltb (suc i) (2 ^ 31) ≡ true = lt→ltb (suc i) (2 ^ 31) (omega arith) in
      (
        w',
        o',
        rw below run,
        seen ∙ ap (λ c. some (file append c o')) (append_assoc s (b'i' ∷ []) (replicate n b'i')),
        Reaches_trans (Reaches-round K S append (length s) n o other) rest,
      )

  -- When no call fails, every write is whole, and lseek() and write() do as documented on a shared
  -- file, the loop ends for every number of rounds `n` below 2 ^ 31, puts `n` times `i` behind what the file has, and the steps of one instance lead from the
  -- size before it to the size after it, as long as the other takes none.
  pub write_loop-Reaches :
      (append : Bool) (n fd : ℕ) (w : C.World) (s : List ℕ) (o : ℕ) (other : Instance)
      → view w fd ≡ some (file append s o)
      → n < 2 ^ 31
      → length s + n < 2 ^ 63
      → (w' : C.World) × (o' : ℕ) × (write_loop C append n 0 fd w ≡ some w')
        × (view w' fd ≡ some (file append (s ++ replicate n b'i') o'))
        × Reaches K append (alone (length s) n o other) (alone (length s + n) 0 o' other)
  write_loop-Reaches append n fd w s o other e count room =
      write_loop-from append n 0 fd w s o other e (omega arith) room
