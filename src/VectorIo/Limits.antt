-- ===== src/VectorIo/Limits.antt =====
-- The test of the lengths in writev() and readv() of 05-file-io-further-details/vector_fileio.c.
use linux_programming_interf.Common.{
  ℕ, ◌+◌, ◌%◌, ◌^◌, ◌≤◌, ◌≡◌, refl, ◌↔◌, inl, inr, true, List, [], ◌∷◌, arith, ltb, All, Bool-cases,
}
use linux_programming_interf.VectorIo.{IoVec, ssize_max, lengths_fit}

abbrev pub total : List IoVec → ℕ
total [] = 0
total (vec ∷ rest) = vec.iov_len + total rest

abbrev pub IsShort : IoVec → Type 0
IsShort vec = vec.iov_len ≤ ssize_max

-- For vectors none of which is longer than SSIZE_MAX, the test says whether the count so far and
-- all lengths together are at most SSIZE_MAX: the unsigned count does not wrap around first.
pub lengths_fit_iff :
    (cnt : ℕ) (vecs : List IoVec)
    → All IsShort vecs
    → cnt ≤ ssize_max
    → (lengths_fit cnt vecs ≡ true) ↔ (cnt + total vecs ≤ ssize_max)
unfolding lengths_fit
lengths_fit_iff cnt [] ok le = (λ _. omega arith, λ _. refl)
lengths_fit_iff cnt (vec ∷ rest) (s, ok) le =
    let exact : (cnt + vec.iov_len) % 2 ^ 64 ≡ cnt + vec.iov_len = omega arith in
    rw (exact, lengths_fit)
      (elim (Bool-cases (ltb ssize_max (cnt + vec.iov_len))) [
        | inl large ↦ rw large (ground arith)
        | inr small ↦
            let (there, back) = lengths_fit_iff (cnt + vec.iov_len) rest ok (ground arith) in
            rw small (λ e. omega (arith, there e), λ h. back (omega arith))
      ])
