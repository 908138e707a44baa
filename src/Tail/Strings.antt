-- ===== src/Tail/Strings.antt =====
-- The strings of 13-file-io-buffering/tail.c, by their lines.
use linux_programming_interf.Common.{
  take, none, buffer_string, ℕ, zero, suc, ◌+◌, ◌≤◌, ◌<◌, ◌≡◌, ◌≢◌, refl, sym, ap, ◌∙◌, false, some,
  inl, inr, List, [], ◌∷◌, ◌++◌, CString, arith, ◌==◌, ==_iff, length, length-append, drop, All,
  Bool-cases,
}
use mathlib.Core.List.{append_assoc}
use linux_programming_interf.Tail.Text.{strchr, str_occurrences, skip_occurrences}

abbrev pub NoNul : CString → Type 0
NoNul s = All (λ b. b ≢ 0) s

-- A string in memory that is followed by a NUL.
pub buffer_string-append : (s rest : List ℕ) → NoNul s → buffer_string (s ++ 0 ∷ rest) ≡ some s
unfolding buffer_string
buffer_string-append [] rest ok = refl
buffer_string-append (b ∷ s) rest (ne, ok) =
    let other : (b == 0) ≡ false = ground arith in
    rw (other, buffer_string, buffer_string-append s rest ok) refl

pub buffer_string-none : (s : List ℕ) → NoNul s → buffer_string s ≡ none
unfolding buffer_string
buffer_string-none [] clean = refl
buffer_string-none (b ∷ s) (ne, clean) =
    let other : (b == 0) ≡ false = ground arith in
    rw (other, buffer_string, buffer_string-none s clean) refl

pub NoNul-take : (n : ℕ) (s : List ℕ) → NoNul s → NoNul (take n s)
NoNul-take zero s clean = tt
NoNul-take (suc n) [] clean = tt
NoNul-take (suc n) (b ∷ s) (ne, clean) = (ne, NoNul-take n s clean)

strchr-splits :
    (s : CString) (c : ℕ)
    → 0 < str_occurrences s c
    → (a b : CString) × (strchr s c ≡ some (length a))
      × (s ≡ a ++ c ∷ b)
      × (str_occurrences s c ≡ suc (str_occurrences b c))
unfolding strchr str_occurrences
strchr-splits [] c lt = absurd (omega arith)
strchr-splits (d ∷ s) c lt = elim (Bool-cases (d == c)) [
  | inl e ↦
      let same : d ≡ c = (==_iff d c).0 e in
      ([], s, rw (e, strchr) refl, ap (λ x. x ∷ s) same, rw (e, str_occurrences) refl)
  | inr e ↦
      let (a, b, found, split, count) = strchr-splits s c (ground arith) in
      (d ∷ a, b, rw (e, strchr, found) refl, ap (λ l. d ∷ l) split, rw (e, str_occurrences) count)
]

drop_prefix : (a b : CString) (c : ℕ) → drop (suc (length a)) (a ++ c ∷ b) ≡ b
drop_prefix [] b c = refl
drop_prefix (d ∷ a) b c = drop_prefix a b c

-- What follows the `n`-th `c`.
abbrev pub Skipped : CString → ℕ → ℕ → CString → CString → Type 0
Skipped s c n p t =
    (skip_occurrences s c n ≡ some (length p))
    × (s ≡ p ++ t)
    × (str_occurrences s c ≡ n + str_occurrences t c)
    × (0 < n → (q : CString) × (p ≡ q ++ c ∷ []))

pub skip_occurrences-Skipped :
    (n : ℕ) (s : CString) (c : ℕ) → n ≤ str_occurrences s c → (p t : CString) × Skipped s c n p t
unfolding skip_occurrences
skip_occurrences-Skipped zero s c le =
    ([], s, (refl, refl, omega arith, λ lt. absurd (omega arith)))
skip_occurrences-Skipped (suc n) s c le =
    let (a, b, found, split, count) = strchr-splits s c (omega arith) in
    let (p, t, rest) = skip_occurrences-Skipped n b c (omega arith) in
    let (skipped, split', count', ends) = rest in
    let behind : drop (suc (length a)) s ≡ b =
      ap (drop (suc (length a))) split ∙ drop_prefix a b c in
    (
      a ++ c ∷ p,
      t,
      (
        rw (found, skip_occurrences, behind, skipped)
            (ap some {y = length (a ++ c ∷ p)} (omega (arith, length-append a (c ∷ p)))),
        split ∙ ap (λ l. a ++ c ∷ l) split' ∙ sym (append_assoc a (c ∷ p) t),
        omega arith,
        λ lt. last n a b p skipped ends,
      ),
    )
  where
    last :
        (m : ℕ) (a b p : CString)
        → skip_occurrences b c m ≡ some (length p)
        → (0 < m → (q : CString) × (p ≡ q ++ c ∷ []))
        → (q : CString) × (a ++ c ∷ p ≡ q ++ c ∷ [])
    last zero a b [] skipped ends = (a, refl)
    last zero a b (x ∷ p) skipped ends = absurd (ground arith)
    last (suc m) a b p skipped ends =
        let (q, e) = ends (omega arith) in
        (a ++ c ∷ q, ap (λ l. a ++ c ∷ l) e ∙ sym (append_assoc a (c ∷ q) (c ∷ [])))
