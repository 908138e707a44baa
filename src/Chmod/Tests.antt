-- ===== src/Chmod/Tests.antt =====
-- Runs of 15-file-attributes/exercise6_chmod.c on one file.
use linux_programming_interf.Common.{
  ◌≢◌, arith, if◌then◌else◌, ℕ, zero, suc, ◌≤◌, ◌≡◌, ◌⊎◌, refl, inl, inr, Option, none, some, [],
  ◌∷◌, codes,
}
use mathlib.Core.Option.{some-injective}
use linux_programming_interf.Common.Bits.{test_bit}
use linux_programming_interf.Chmod.{Calls, is_dir, main, change_paths}
use linux_programming_interf.Chmod.Keeps.{IsLawful, change_paths-keeps}
use linux_programming_interf.Chmod.Whole.{IsReliable, names, opened, main-opened}

-- Every path names inode 0, whose mode is the state.
abbrev one_file : Calls
one_file = record {
  World = ℕ;
  stat = λ path w. (some w, w);
  chmod = λ path m w. m;
  print = λ s w. w;
}

abbrev mode_of : ℕ → ℕ → ℕ
mode_of w zero = w
mode_of w (suc i) = 0

abbrev bits :
    (m w i k : ℕ)
    → (test_bit k (mode_of m i) ≡ test_bit k (mode_of w i))
      ⊎ (some 0 ≡ some i) × (test_bit k (mode_of m i) ≡ test_bit k m)
bits m w zero k = inr (refl, refl)
bits m w (suc i) k = inl refl

abbrev one_file-IsLawful : IsLawful one_file
one_file-IsLawful = record {
  inode = λ path. some 0;
  mode = mode_of;
  stat-some = λ path w {m} e. (0, refl, option_value w m e);
  stat-frame = λ path w i. refl;
  chmod_bits = λ path m w i k other. bits m w i k;
  print-frame = λ s w i. refl;
}
  where
    or_zero : Option ℕ → ℕ
    or_zero none = 0
    or_zero (some n) = n

    option_value : (w m : ℕ) → some w ≡ some m → w ≡ m
    option_value w m e = λ j. or_zero (e j)

change_paths-keeps_example :
    test_bit 7 (mode_of 0o100644 0)
    ≤ test_bit 7 (mode_of (change_paths one_file (codes "f" ∷ codes "g" ∷ []) 0o100644).1 0)
change_paths-keeps_example =
    change_paths-keeps one_file one_file-IsLawful (codes "f" ∷ codes "g" ∷ []) 0o100644 0 7
      (omega arith)

type_of :
    (m w i j : ℕ)
    → some 0 ≡ some i
    → is_dir m ≡ is_dir (mode_of w i)
    → is_dir (mode_of m j) ≡ is_dir (mode_of w j)
type_of m w zero zero named same = same
type_of m w (suc i) zero named same = absurd (let e = some-injective _ _ named in omega (arith, e))
type_of m w i (suc j) named same = refl

first_only : (m w i j : ℕ) → some 0 ≡ some i → j ≢ i → mode_of m j ≡ mode_of w j
first_only m w i zero named other = absurd (let e = some-injective _ _ named in other e)
first_only m w i (suc j) named other = refl

only_mode : (m i k : ℕ) → some 0 ≡ some i → test_bit k (mode_of m i) ≡ test_bit k m
only_mode m zero k named = refl
only_mode m (suc i) k named = absurd (let e = some-injective _ _ named in omega (arith, e))

only_state : (w i : ℕ) → some 0 ≡ some i → some w ≡ some (mode_of w i)
only_state w zero named = refl
only_state w (suc i) named = absurd (let e = some-injective _ _ named in omega (arith, e))

abbrev one_file-IsReliable : IsReliable one_file one_file-IsLawful
one_file-IsReliable = record {
  stat_done = λ path w i named. only_state w i named;
  chmod_done = λ path m w i k named low other. only_mode m i k named;
  chmod_other = λ path m w i j named other. first_only m w i j named other;
  chmod_type = λ path m w i j named same. type_of m w i j named same;
}

-- A file that its owner can read and write: reading by others stays disabled.
main-opened_example :
    ((main one_file (codes "p" ∷ codes "f" ∷ codes "g" ∷ []) 0o100600).0 ≡ 0)
    × (test_bit 2 (main one_file (codes "p" ∷ codes "f" ∷ codes "g" ∷ []) 0o100600).1 ≡ (
        if names (λ path. some 0) 0 (codes "f" ∷ codes "g" ∷ [])
        then opened 2 (is_dir 0o100600) (test_bit 2 0o100600)
        else test_bit 2 0o100600))
main-opened_example =
    main-opened one_file one_file-IsLawful one_file-IsReliable (codes "p") (codes "f")
      (codes "g" ∷ []) 0o100600 0 2 ((0, refl), ((0, refl), tt)) (omega arith) (omega arith)
