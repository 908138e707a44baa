-- ===== src/VectorIo/Laws.antt =====
-- What writev() and readv() of 05-file-io-further-details/vector_fileio.c do to a file.
use linux_programming_interf.Common.{
  ℕ, zero, suc, ◌+◌, ◌≤◌, ◌<◌, ◌^◌, ◌≡◌, refl, sym, ap, ◌∙◌, ◌⊎◌, inl, inr, false, some, List, [],
  ◌∷◌, ◌++◌, arith, ltb, length, take, length-append, length-take, take_all, All, Option-cases,
  Bool-cases,
}
use linux_programming_interf.Common.Int.{pos, negsuc}
use linux_programming_interf.Files.{Calls, View, IsRegular}
use linux_programming_interf.Files.Written.{
  after, after-after, after_append, write-after, as_int_small,
}
use linux_programming_interf.VectorIo.{IoVec, write_vecs}

-- A vector whose memory is that of its length, which fits an int.
abbrev pub IsVec : IoVec → Type 0
IsVec vec = (length vec.iov_base ≡ vec.iov_len) × (vec.iov_len < 2 ^ 31)

abbrev pub gathered : List IoVec → List ℕ
gathered [] = []
gathered (vec ∷ rest) = take vec.iov_len vec.iov_base ++ gathered rest

take_past : (n : ℕ) (xs ys : List ℕ) → take (length xs + n) (xs ++ ys) ≡ xs ++ take n ys
take_past n [] ys = ap (λ m. take m ys) {y = n} (omega arith)
take_past n (x ∷ xs) ys =
    ap (λ m. take m (x ∷ xs ++ ys)) {y = suc (length xs + n)} (omega arith)
    ∙ ap (λ l. x ∷ l) (take_past n xs ys)

take_within : (n : ℕ) (xs ys : List ℕ) → n ≤ length xs → take n (xs ++ ys) ≡ take n xs
take_within zero xs ys le = refl
take_within (suc n) [] ys le = absurd (omega arith)
take_within (suc n) (x ∷ xs) ys le = ap (λ l. x ∷ l) (take_within n xs ys (omega arith))

module _ (C : Calls) (R : IsRegular C) where
  open R use {view}

  -- When every vector is shorter than 2 ^ 31 bytes, as the int that holds the result of write()
  -- needs, and the file is not open with O_APPEND: whatever the calls write, `writev` has the effect
  -- of one write() of the first bytes of all vectors, put one behind the other, and returns how many
  -- these are, or -1.
  pub write_vecs-after :
      (fd : ℕ) (vecs : List IoVec) (total : ℕ) (w : C.World) (v : View)
      → All IsVec vecs
      → v.append ≡ false
      → view w fd ≡ some v
      → (n : ℕ) × (n ≤ length (gathered vecs))
        × (view (write_vecs C fd vecs total w).1 fd ≡ some (after v (take n (gathered vecs))))
        × (((write_vecs C fd vecs total w).0 ≡ pos (total + n))
            ⊎ ((write_vecs C fd vecs total w).0 ≡ negsuc 0))
  unfolding write_vecs
  write_vecs-after fd [] total w v ok a e = (0, omega arith, e, inl (ap pos (omega arith)))
  write_vecs-after fd (vec ∷ rest) total w v ((same, small), ok) a e =
      let bs : List ℕ = take vec.iov_len vec.iov_base in
      let long : length bs ≡ vec.iov_len = omega (arith, length-take vec.iov_len vec.iov_base) in
      let w' = (C.write fd bs w).1 in
      elim (Option-cases (C.write fd bs w).0) [
        | inl failed ↦ (
          0,
          omega arith,
          rw (failed, write_vecs) (R.write-none fd bs w failed ∙ e),
          rw (failed, write_vecs) (inr refl),
        )
        | inr (k, r) ↦
            let le = (R.write-some fd bs w e r).0 in
            let int = as_int_small k (omega arith) in
            let e' = write-after C R fd k bs w v e r in
            elim (Bool-cases (ltb k vec.iov_len)) [
              | inl short ↦ (
                k,
                omega (arith, length-append bs (gathered rest)),
                rw (r, int, write_vecs, short)
                    (e' ∙ ap (λ l. some (after v l)) (sym (take_within k bs (gathered rest) le))),
                rw (r, int, write_vecs, short) (inl refl),
              )
              | inr full ↦
                  let all : k ≡ length bs = ground arith in
                  let e2 = e' ∙ ap (λ l. some (after v l)) (take_all k bs (omega arith)) in
                  let (n, le', e3, res) =
                    write_vecs-after fd rest (total + k) w' (after v bs) ok (after_append v bs ∙ a)
                      e2 in
                  (
                    length bs + n,
                    omega (arith, length-append bs (gathered rest)),
                    rw (r, int, write_vecs, full)
                        (e3
                          ∙ ap some (after-after v bs (take n (gathered rest)) a)
                          ∙ ap (λ l. some (after v l)) (sym (take_past n bs (gathered rest)))),
                    rw (r, int, write_vecs, full)
                        (elim res [ inl p ↦ inl (p ∙ ap pos (omega arith)) | inr p ↦ inr p ]),
                  )
            ]
      ]
