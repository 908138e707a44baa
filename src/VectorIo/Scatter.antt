-- ===== src/VectorIo/Scatter.antt =====
-- What readv() of 05-file-io-further-details/vector_fileio.c leaves in the memory of the vectors.
use linux_programming_interf.Common.{
  ℕ, zero, suc, ◌+◌, ◌≤◌, ◌≡◌, refl, sym, ap, ◌∙◌, ◌⊎◌, inl, inr, some, List, [], ◌∷◌, ◌++◌, arith,
  ltb, length, take, drop, length-append, length-drop, take_all, drop_all, All, take-append-take,
  drop-drop, Option-cases, Bool-cases,
}
use mathlib.Core.List.{append_assoc, append-nil}
use linux_programming_interf.Common.Int.{pos, negsuc}
use linux_programming_interf.Files.{Calls, View, IsRegular}
use linux_programming_interf.Files.Spliced.{drop_first}
use linux_programming_interf.VectorIo.{IoVec, store, stored, read_vecs}
use linux_programming_interf.Files.Written.{as_int_small}
use linux_programming_interf.VectorIo.Laws.{IsVec, gathered}

drop_within : (n : ℕ) (xs ys : List ℕ) → n ≤ length xs → drop n (xs ++ ys) ≡ drop n xs ++ ys
drop_within zero xs ys le = refl
drop_within (suc n) [] ys le = absurd (omega arith)
drop_within (suc n) (x ∷ xs) ys le = drop_within n xs ys (omega arith)

-- The memory of the vectors after `n` bytes of `bytes` are read to its start.
abbrev pub overlaid : ℕ → List ℕ → List ℕ → List ℕ
overlaid n bytes old = take n bytes ++ drop n old

module _ (vec : IoVec) (same : length vec.iov_base ≡ vec.iov_len) (bs : List ℕ) where
  store-whole :
      (C : Calls)
      → length bs ≤ vec.iov_len
      → take vec.iov_len (store C vec bs).iov_base ≡ (bs ++ drop (length bs) vec.iov_base)
  store-whole C le = take_all vec.iov_len (bs ++ drop (length bs) vec.iov_base) (
      omega (
        arith,
        length-append bs (drop (length bs) vec.iov_base),
        length-drop (length bs) vec.iov_base,
      ))

  overlaid_part :
      (bytes rest : List ℕ)
      → length bs ≤ vec.iov_len
      → bs ≡ take (length bs) bytes
      → (bs ++ drop (length bs) vec.iov_base) ++ rest
        ≡ overlaid (length bs) bytes (take vec.iov_len vec.iov_base ++ rest)
  overlaid_part bytes rest le got =
      append_assoc bs (drop (length bs) vec.iov_base) rest
      ∙ ap (λ l. bs ++ l) (sym (drop_within (length bs) vec.iov_base rest (omega arith)))
      ∙ ap (λ l. bs ++ drop (length bs) (l ++ rest))
          (sym (take_all vec.iov_len vec.iov_base (omega arith)))
      ∙ ap (λ l. l ++ drop (length bs) (take vec.iov_len vec.iov_base ++ rest)) got

  overlaid_next :
      (n : ℕ) (bytes rest : List ℕ)
      → length bs ≡ vec.iov_len
      → bs ≡ take (length bs) bytes
      → (bs ++ drop (length bs) vec.iov_base) ++ overlaid n (drop (length bs) bytes) rest
        ≡ overlaid (length bs + n) bytes (take vec.iov_len vec.iov_base ++ rest)
  overlaid_next n bytes rest full got =
      let past = drop_all (length bs) vec.iov_base (omega arith) in
      let whole = take_all vec.iov_len vec.iov_base (omega arith) in
      let tail = drop_first (length bs) n vec.iov_base rest (omega arith) in
      let more : List ℕ = take n (drop (length bs) bytes) in
      ap (λ l. (bs ++ l) ++ overlaid n (drop (length bs) bytes) rest) past
      ∙ ap (λ l. l ++ overlaid n (drop (length bs) bytes) rest) (append-nil bs)
      ∙ sym (append_assoc bs more (drop n rest))
      ∙ ap (λ l. (l ++ more) ++ drop n rest) got
      ∙ ap (λ l. l ++ drop n rest) (take-append-take (length bs) n bytes)
      ∙ ap (λ l. take (length bs + n) bytes ++ l) (sym tail)
      ∙ ap (λ l. take (length bs + n) bytes ++ drop (length bs + n) (l ++ rest)) (sym whole)

module _ (C : Calls) (R : IsRegular C) where
  open R use {view}

  -- When every vector is shorter than 2 ^ 31 bytes, as the int that holds the result of read()
  -- needs: whatever the calls read, `readv` moves the offset over some bytes of the file, fills the
  -- memory of the vectors with these bytes in order from its start, leaves the rest of it alone, and
  -- returns how many these are, or -1.
  pub read_vecs-overlaid :
      (fd : ℕ) (vecs : List IoVec) (total : ℕ) (w : C.World) (v : View)
      → All IsVec vecs
      → view w fd ≡ some v
      → (n : ℕ) × (gathered (read_vecs C fd vecs total w).1.0
          ≡ overlaid n (drop v.offset v.content) (gathered vecs))
        × (view (read_vecs C fd vecs total w).1.1 fd ≡ some (record v { offset = v.offset + n }))
        × (((read_vecs C fd vecs total w).0 ≡ pos (total + n))
            ⊎ ((read_vecs C fd vecs total w).0 ≡ negsuc 0))
  unfolding read_vecs
  read_vecs-overlaid fd [] total w v ok e =
      (0, refl, e ∙ ap some (λ i. record v { offset = stay i }), inl (ap pos (omega arith)))
    where
      stay : v.offset ≡ v.offset + 0
      stay = omega arith
  read_vecs-overlaid fd (vec ∷ rest) total w v ((same, small), ok) e =
      elim (Option-cases (C.read fd vec.iov_len w).0) [
        | inl failed ↦ (
          0,
          rw (failed, read_vecs) (ap (λ o. gathered (stored C vec o ∷ rest)) failed),
          rw (failed, read_vecs)
              (R.read-none fd vec.iov_len w failed
                ∙ e
                ∙ ap some (λ i. record v { offset = stay i })),
          rw (failed, read_vecs) (inr refl),
        )
        | inr (bs, r) ↦
            let (le, got, stop, e') = R.read-some fd vec.iov_len w e r in
            let int = as_int_small (length bs) (omega arith) in
            let whole = store-whole vec same bs C le in
            let w' = (C.read fd vec.iov_len w).1 in
            elim (Bool-cases (ltb (length bs) vec.iov_len)) [
              | inl short ↦ (
                length bs,
                rw (r, int, read_vecs, short)
                    (ap (λ o. gathered (stored C vec o ∷ rest)) r
                      ∙ ap (λ l. l ++ gathered rest) whole
                      ∙ overlaid_part vec same bs (drop v.offset v.content) (gathered rest) le got),
                rw (r, int, read_vecs, short) e',
                rw (r, int, read_vecs, short) (inl refl),
              )
              | inr full ↦
                  let all : length bs ≡ vec.iov_len = ground arith in
                  let v' = record v { offset = v.offset + length bs } in
                  let (n, mem, e2, res) =
                    read_vecs-overlaid fd rest (total + length bs) w' v' ok e' in
                  (
                    length bs + n,
                    rw (r, int, read_vecs, full)
                        (ap
                            (λ o.
                              gathered
                                (stored C vec o ∷ (read_vecs C fd rest (total + length bs) w').1.0))
                            r
                          ∙ ap (λ l. l ++ gathered (read_vecs C fd rest (total + length bs) w').1.0)
                              whole
                          ∙ ap (λ l. (bs ++ drop (length bs) vec.iov_base) ++ l)
                              (mem
                                ∙ ap (λ d. overlaid n d (gathered rest))
                                    (sym (drop-drop (length bs) v.offset v.content)))
                          ∙ overlaid_next vec same bs n (drop v.offset v.content) (gathered rest)
                              all got),
                    rw (r, int, read_vecs, full)
                        (e2 ∙ ap (λ o. some (record v { offset = o })) (omega arith)),
                    rw (r, int, read_vecs, full)
                        (elim res [ inl p ↦ inl (p ∙ ap pos (omega arith)) | inr p ↦ inr p ]),
                  )
            ]
      ]
    where
      stay : v.offset ≡ v.offset + 0
      stay = omega arith
