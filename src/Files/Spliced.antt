-- ===== src/Files/Spliced.antt =====
-- The bytes of a file after a write at an offset: a gap reads as zeros.
use linux_programming_interf.Common.{
  ℕ, zero, suc, ◌+◌, ◌-◌, ◌≤◌, ◌≡◌, refl, ap, ◌∙◌, List, [], ◌∷◌, ◌++◌, arith, length, take, drop,
  replicate, take_all, drop_all, length-append, length-take, length-replicate, drop-drop,
}
use mathlib.Core.List.{append-nil, append_assoc}

-- The file extended by zeros up to the offset.
abbrev pub pad : List ℕ → ℕ → List ℕ
pad c k = take k c ++ replicate (k - length c) 0

abbrev pub splice : List ℕ → ℕ → List ℕ → List ℕ
splice c k bs = pad c k ++ bs ++ drop (k + length bs) c

-- At or behind the end a write extends the file.
pub splice_end :
    (c : List ℕ) (k : ℕ) (bs : List ℕ)
    → length c ≤ k
    → splice c k bs ≡ (c ++ replicate (k - length c) 0) ++ bs
splice_end c k bs h = rw (take_all k c h, drop_all (k + length bs) c (omega arith), append-nil)

replicate_none : (c : List ℕ) (k : ℕ) → length c ≡ k → replicate {A = ℕ} (k - length c) 0 ≡ []
replicate_none c k e = ap (λ n. replicate {A = ℕ} n 0) {y = 0} (omega arith)

pub splice_append : (c bs : List ℕ) → splice c (length c) bs ≡ c ++ bs
splice_append c bs =
    splice_end c (length c) bs (omega arith)
    ∙ ap (λ z. (c ++ z) ++ bs) (replicate_none c (length c) refl)
    ∙ ap (λ z. z ++ bs) (append-nil c)

length-pad : (c : List ℕ) (k : ℕ) → length (pad c k) ≡ k
length-pad c k =
    length-append (take k c) (replicate (k - length c) 0)
    ∙ omega (arith, length-take k c, length-replicate {A = ℕ} (k - length c) 0)

take_first : (n : ℕ) (xs ys : List ℕ) → length xs ≡ n → take n (xs ++ ys) ≡ xs
take_first zero [] ys e = refl
take_first zero (x ∷ xs) ys e = absurd (omega (arith, e))
take_first (suc n) [] ys e = absurd (omega (arith, e))
take_first (suc n) (x ∷ xs) ys e = ap (λ l. x ∷ l) (take_first n xs ys (omega (arith, e)))

pub drop_first : (n k : ℕ) (xs ys : List ℕ) → length xs ≡ n → drop (n + k) (xs ++ ys) ≡ drop k ys
drop_first zero k [] ys e = ap (λ m. drop m ys) {y = k} (omega arith)
drop_first zero k (x ∷ xs) ys e = absurd (omega (arith, e))
drop_first (suc n) k [] ys e = absurd (omega (arith, e))
drop_first (suc n) k (x ∷ xs) ys e =
    ap (λ m. drop m (x ∷ xs ++ ys)) {y = suc (n + k)} (omega arith)
    ∙ drop_first n k xs ys (omega (arith, e))

-- Two writes, the second where the first ended, are one write.
pub splice-splice :
    (c : List ℕ) (k : ℕ) (a b : List ℕ)
    → splice (splice c k a) (k + length a) b ≡ splice c k (a ++ b)
splice-splice c k a b =
    let front : List ℕ = pad c k ++ a in
    let tail : List ℕ = drop (k + length a) c in
    let long : length front ≡ k + length a =
      length-append (pad c k) a ∙ ap (λ n. n + length a) (length-pad c k) in
    let none_missing : (k + length a) - length (front ++ tail) ≡ 0 =
      omega (arith, length-append front tail, long) in
    let padded : pad (front ++ tail) (k + length a) ≡ front =
      ap (λ n. take (k + length a) (front ++ tail) ++ replicate {A = ℕ} n 0) none_missing
      ∙ append-nil (take (k + length a) (front ++ tail))
      ∙ take_first (k + length a) front tail long in
    let rest : drop ((k + length a) + length b) (front ++ tail) ≡ drop (k + length (a ++ b)) c =
      drop_first (k + length a) (length b) front tail long
      ∙ drop-drop (length b) (k + length a) c
      ∙ ap (λ n. drop n c) (omega (arith, length-append a b)) in
    ap (λ p. p ++ b ++ drop ((k + length a) + length b) (front ++ tail)) padded
    ∙ ap (λ r. front ++ b ++ r) rest
    ∙ ap (λ l. l ++ drop (k + length (a ++ b)) c) (append_assoc (pad c k) a b)

-- What a write put at an offset is there.
pub splice-read :
    (c : List ℕ) (k : ℕ) (bs : List ℕ) → drop k (splice c k bs) ≡ bs ++ drop (k + length bs) c
splice-read c k bs =
    let tail : List ℕ = drop (k + length bs) c in
    ap (drop k) (append_assoc (pad c k) bs tail)
    ∙ ap (λ m. drop m (pad c k ++ (bs ++ tail))) {y = k + 0} (omega arith)
    ∙ drop_first k 0 (pad c k) (bs ++ tail) (length-pad c k)
