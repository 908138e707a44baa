-- ===== src/VectorIo/RoundTrip.antt =====
-- readv() of what writev() wrote, in 05-file-io-further-details/vector_fileio.c.
use linux_programming_interf.Common.{
  ℕ, ◌+◌, ◌≤◌, ◌<◌, ◌^◌, ◌≡◌, refl, sym, ap, ◌∙◌, inl, inr, false, some, List, [], ◌∷◌, ◌++◌, arith,
  ltb, length, take, drop, length-append, length-take, length-drop, take_all, drop_all, All,
}
use mathlib.Core.List.{append-nil}
use linux_programming_interf.Common.Int.{ℤ, pos, negsuc}
use linux_programming_interf.Files.{Calls, View, seek_set, IsRegular, IsReliable, IsFull}
use linux_programming_interf.Files.Spliced.{splice-read}
use linux_programming_interf.Files.Written.{after, after_append, as_int_small, write-after}
use linux_programming_interf.VectorIo.{IoVec, write_vecs, read_vecs}
use linux_programming_interf.VectorIo.Laws.{IsVec, gathered, write_vecs-after}
use linux_programming_interf.VectorIo.Scatter.{read_vecs-overlaid}

abbrev count : ℤ → ℕ
count (pos n) = n
count (negsuc n) = 0

-- The bytes of a file at the offset where a write began.
after_bytes :
    (v : View) (g : List ℕ)
    → v.append ≡ false
    → (t : List ℕ) × (drop v.offset (after v g).content ≡ g ++ t)
after_bytes v [] a = (drop v.offset v.content, refl)
after_bytes v (b ∷ g) a =
    (drop (v.offset + length (b ∷ g)) v.content, rw a (splice-read v.content v.offset (b ∷ g)))

take_front : (g t : List ℕ) → take (length g) (g ++ t) ≡ g
take_front [] t = refl
take_front (x ∷ g) t = ap (λ l. x ∷ l) (take_front g t)

module _ (C : Calls) (R : IsRegular C) (D : IsReliable C R) where
  open R use {view}

  write_whole :
      (fd : ℕ) (vecs : List IoVec) (total : ℕ) (w : C.World) (v : View)
      → All IsVec vecs
      → v.append ≡ false
      → view w fd ≡ some v
      → (write_vecs C fd vecs total w).0 ≡ pos (total + length (gathered vecs))
  unfolding write_vecs
  write_whole fd [] total w v good a e = ap pos (omega arith)
  write_whole fd (vec ∷ rest) total w v ((same, small), good) a e =
      let bs : List ℕ = take vec.iov_len vec.iov_base in
      let long : length bs ≡ vec.iov_len = omega (arith, length-take vec.iov_len vec.iov_base) in
      let r = D.write_done fd bs w e in
      let int = as_int_small (length bs) (omega arith) in
      let full : ltb (length bs) vec.iov_len ≡ false = ground arith in
      let v' = after v (take (length bs) bs) in
      rw (r, int, write_vecs, full)
        (write_whole fd rest (total + length bs) (C.write fd bs w).1 v' good
            (after_append v (take (length bs) bs) ∙ a) (write-after C R fd (length bs) bs w v e r)
          ∙ ap pos (omega (arith, length-append bs (gathered rest))))

  read_whole :
      (F : IsFull C R) (fd : ℕ) (vecs : List IoVec) (total : ℕ) (w : C.World) (v : View)
      → All IsVec vecs
      → view w fd ≡ some v
      → length (gathered vecs) ≤ length (drop v.offset v.content)
      → (read_vecs C fd vecs total w).0 ≡ pos (total + length (gathered vecs))
  unfolding read_vecs
  read_whole F fd [] total w v good e enough = ap pos (omega arith)
  read_whole F fd (vec ∷ rest) total w v ((same, small), good) e enough =
      let bs : List ℕ = take vec.iov_len (drop v.offset v.content) in
      let own = length-append (take vec.iov_len vec.iov_base) (gathered rest) in
      let part = length-take vec.iov_len vec.iov_base in
      let long : length bs ≡ vec.iov_len =
        omega (arith, own, part, length-take vec.iov_len (drop v.offset v.content)) in
      let r = F.read_full fd vec.iov_len w e in
      let int = as_int_small (length bs) (omega arith) in
      let full : ltb (length bs) vec.iov_len ≡ false = ground arith in
      let (le, got, stop, e') = R.read-some fd vec.iov_len w e r in
      let v' = record v { offset = v.offset + length bs } in
      let left : length (gathered rest) ≤ length (drop v'.offset v.content) =
        omega (arith, own, part, length-drop v.offset v.content, length-drop v'.offset v.content) in
      rw (r, int, read_vecs, full)
        (read_whole F fd rest (total + length bs) (C.read fd vec.iov_len w).1 v' good e' left
          ∙ ap pos (omega (arith, own, part)))

  -- When every vector is shorter than 2 ^ 31 bytes, the file is not open with O_APPEND, no call fails
  -- and none is partial, vectors that are written, and read back from where the write began into
  -- others that together are as long, arrive whole, however the lengths below 2 ^ 31 are split.
  pub write_vecs-read_vecs :
      (F : IsFull C R) (fd : ℕ) (out into : List IoVec) (w : C.World) (v : View)
      → All IsVec out
      → All IsVec into
      → length (gathered into) ≡ length (gathered out)
      → v.append ≡ false
      → v.offset < 2 ^ 63
      → view w fd ≡ some v
      → gathered
          (read_vecs C fd into 0
            (C.lseek fd (pos v.offset) seek_set (write_vecs C fd out 0 w).1).1).1.0
        ≡ gathered out
  write_vecs-read_vecs F fd out into w v good_out good_into as_long a small e =
      let (n, le, e1, res) = write_vecs-after C R fd out 0 w v good_out a e in
      let sum = write_whole fd out 0 w v good_out a e in
      let all : n ≡ length (gathered out) = elim res [
        | inl p ↦ omega (arith, ap count (sym p ∙ sum))
        | inr p ↦
            absurd (let clash : negsuc 0 ≡ pos (0 + length (gathered out)) = sym p ∙ sum in cc)
      ] in
      let e2 = e1 ∙ ap (λ l. some (after v l)) (take_all n (gathered out) (omega arith)) in
      let w1 = (write_vecs C fd out 0 w).1 in
      let w2 = (C.lseek fd (pos v.offset) seek_set w1).1 in
      let moved = (R.lseek-some fd (pos v.offset) seek_set w1 e2 refl (omega arith)).1 in
      let v2 = record (after v (gathered out)) { offset = 0 + v.offset } in
      let (t, there) = after_bytes v (gathered out) a in
      let at : drop (0 + v.offset) v2.content ≡ gathered out ++ t =
        ap (λ k. drop k v2.content) (omega arith) ∙ there in
      let sum2 =
        read_whole F fd into 0 w2 v2 good_into moved
          (omega (arith, ap length at, length-append (gathered out) t)) in
      let (m, mem, e3, res2) = read_vecs-overlaid C R fd into 0 w2 v2 good_into moved in
      let all2 : m ≡ length (gathered into) = elim res2 [
        | inl p ↦ omega (arith, ap count (sym p ∙ sum2))
        | inr p ↦
            absurd (let clash : negsuc 0 ≡ pos (0 + length (gathered into)) = sym p ∙ sum2 in cc)
      ] in
      mem
      ∙ ap (λ l. take m (drop (0 + v.offset) v2.content) ++ l)
          (drop_all m (gathered into) (omega arith))
      ∙ append-nil (take m (drop (0 + v.offset) v2.content))
      ∙ ap (take m) at
      ∙ ap (λ k. take k (gathered out ++ t)) (all2 ∙ as_long)
      ∙ take_front (gathered out) t
