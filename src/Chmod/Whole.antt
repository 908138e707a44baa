-- ===== src/Chmod/Whole.antt =====
-- What a run of 15-file-attributes/exercise6_chmod.c does to the modes, when all calls succeed.
use Prim.Native.Nat.{max, bit_and}
use linux_programming_interf.Common.{
  ℕ, ◌<◌, ◌≡◌, ◌≢◌, refl, sym, ap, ◌∙◌, inl, inr, Bool, true, false, ◌||◌, Option, none, some, List,
  [], ◌∷◌, CString, arith, All, ◌==◌, ==_iff, Bool-cases, if◌then◌else◌,
}
use mathlib.Core.Path.{subst}
use linux_programming_interf.Common.Bits.{
  test_bit, test_bit-or, test_bit-and, test_bit_ext, bit_and-lt,
}
use linux_programming_interf.Chmod.{
  Calls, is_dir, chmod_directory, chmod_file, directory_mode, file_mode, change_paths, main,
}
use linux_programming_interf.Chmod.Modes.{file_mode_bits, test_bit-zero}
use linux_programming_interf.Chmod.Keeps.{IsLawful}

-- Every stat() and chmod() of a path that names an inode succeeds, and chmod() changes the low 12
-- bits of that inode alone, of which S_ISGID, the bit 10, may be cleared whatever was asked for; a mode of the type that the file has does not change its type.
pub record IsReliable (C : Calls) (L : IsLawful C) : Type 0 where
  pub stat_done :
      (path : CString) (w : C.World) (i : ℕ)
      → L.inode path ≡ some i
      → (C.stat path w).0 ≡ some (L.mode w i)
  pub chmod_done :
      (path : CString) (m : ℕ) (w : C.World) (i k : ℕ)
      → L.inode path ≡ some i
      → k < 12
      → k ≢ 10
      → test_bit k (L.mode (C.chmod path m w) i) ≡ test_bit k m
  pub chmod_other :
      (path : CString) (m : ℕ) (w : C.World) (i j : ℕ)
      → L.inode path ≡ some i
      → j ≢ i
      → L.mode (C.chmod path m w) j ≡ L.mode w j
  pub chmod_type :
      (path : CString) (m : ℕ) (w : C.World) (i j : ℕ)
      → L.inode path ≡ some i
      → is_dir m ≡ is_dir (L.mode w i)
      → is_dir (L.mode (C.chmod path m w) j) ≡ is_dir (L.mode w j)

-- Whether one of the paths names the inode.
abbrev pub is_inode : ℕ → Option ℕ → Bool
is_inode j none = false
is_inode j (some i) = j == i

abbrev pub names : (CString → Option ℕ) → ℕ → List CString → Bool
names inode j [] = false
names inode j (path ∷ paths) = is_inode j (inode path) || names inode j paths

-- What the mode bits of a file are to be: r-xr-xr-x is set in that of a directory, and r-xr-x--x in
-- that of another file.
abbrev pub added : Bool → ℕ
added dir = if dir then 0o555 else 0o551

abbrev pub opened : ℕ → Bool → ℕ → ℕ
opened k dir bit = max bit (test_bit k (added dir))

abbrev new_mode : ℕ → ℕ
new_mode m = if is_dir m then directory_mode m else file_mode m

new_mode_bits : (k m : ℕ) → test_bit k (new_mode m) ≡ opened k (is_dir m) (test_bit k m)
unfolding directory_mode
new_mode_bits k m = elim (Bool-cases (is_dir m)) [
  | inl dir ↦ rw dir (test_bit-or k m 0o555)
  | inr file ↦ rw file (file_mode_bits k m)
]

-- The bits of the file type are kept where a mode gets others.
type_kept :
    (m n c : ℕ)
    → ((k : ℕ) → test_bit k n ≡ max (test_bit k m) (test_bit k c))
    → bit_and c 0o170000 ≡ 0
    → bit_and n 0o170000 ≡ bit_and m 0o170000
type_kept m n c bits apart =
    test_bit_ext 16 (bit_and n 0o170000) (bit_and m 0o170000)
      (bit_and-lt 16 n 0o170000 (omega arith)) (bit_and-lt 16 m 0o170000 (omega arith))
      (λ k lt. omega (
        arith,
        bits k,
        test_bit-and k n 0o170000,
        test_bit-and k m 0o170000,
        test_bit-and k c 0o170000,
        ap (test_bit k) apart,
        test_bit-zero k,
      ))

new_mode_type : (m : ℕ) → is_dir (new_mode m) ≡ is_dir m
unfolding directory_mode
new_mode_type m = elim (Bool-cases (is_dir m)) [
  | inl dir ↦
      ap (λ t. t == 0o040000)
        (ap (λ n. bit_and n 0o170000) (rw dir refl)
          ∙ type_kept m (directory_mode m) 0o555 (λ k. test_bit-or k m 0o555) refl)
  | inr file ↦
      ap (λ t. t == 0o040000)
        (ap (λ n. bit_and n 0o170000) (rw file refl)
          ∙ type_kept m (file_mode m) 0o551 (λ k. file_mode_bits k m) refl)
]

-- Setting the bits again changes nothing.
opened_again :
    (k : ℕ) (dir : Bool) (b b' : ℕ) (here later : Bool)
    → b' ≡ (if here then opened k dir b else b)
    → (if later then opened k dir b' else b') ≡ (if here || later then opened k dir b else b)
opened_again k dir b b' true true e = omega (arith, e)
opened_again k dir b b' true false e = e
opened_again k dir b b' false true e = omega (arith, e)
opened_again k dir b b' false false e = e

module _ (C : Calls) (L : IsLawful C) (R : IsReliable C L) where
  open L use {inode, mode}

  change_one :
      (path : CString) (m : ℕ) (w : C.World)
      → (if is_dir m then chmod_directory C path m w else chmod_file C path m w)
        ≡ C.chmod path (new_mode m) w
  unfolding chmod_directory chmod_file
  change_one path m w = elim (Bool-cases (is_dir m)) [
    | inl dir ↦ rw dir refl
    | inr file ↦ rw file refl
  ]

  change_first :
      (path : CString) (paths : List CString) (w : C.World) (i : ℕ)
      → inode path ≡ some i
      → change_paths C (path ∷ paths) w
        ≡ change_paths C paths (C.chmod path (new_mode (mode w i)) (C.stat path w).1)
  unfolding change_paths
  change_first path paths w i named =
      rw (R.stat_done path w i named, change_paths)
        (ap (change_paths C paths) (change_one path (mode w i) (C.stat path w).1))

  change_bits :
      (path : CString) (w : C.World) (i j k : ℕ)
      → inode path ≡ some i
      → k < 12
      → k ≢ 10
      → test_bit k (mode (C.chmod path (new_mode (mode w i)) (C.stat path w).1) j) ≡ (
          if is_inode j (inode path)
          then opened k (is_dir (mode w j)) (test_bit k (mode w j))
          else test_bit k (mode w j))
  change_bits path w i j k named low apart =
      let m = mode w i in
      let w1 = (C.stat path w).1 in
      elim (Bool-cases (j == i)) [
        | inl here ↦
            let at : i ≡ j = sym ((==_iff j i).0 here) in
            let changed : test_bit k (mode (C.chmod path (new_mode m) w1) i)
                ≡ opened k (is_dir m) (test_bit k m) =
              R.chmod_done path (new_mode m) w1 i k named low apart ∙ new_mode_bits k m in
            rw (named, here)
              (subst
                (λ x.
                  test_bit k (mode (C.chmod path (new_mode m) w1) x)
                  ≡ opened k (is_dir (mode w x)) (test_bit k (mode w x)))
                at changed)
        | inr other ↦
            let ne : j ≢ i = ground arith in
            rw (named, other)
              (ap (test_bit k)
                (R.chmod_other path (new_mode m) w1 i j named ne ∙ L.stat-frame path w j))
      ]

  change_paths_bits :
      (paths : List CString) (w : C.World) (j k : ℕ)
      → All (λ path. (i : ℕ) × (inode path ≡ some i)) paths
      → k < 12
      → k ≢ 10
      → ((change_paths C paths w).0 ≡ 0)
        × (test_bit k (mode (change_paths C paths w).1 j) ≡ (
            if names inode j paths
            then opened k (is_dir (mode w j)) (test_bit k (mode w j))
            else test_bit k (mode w j)))
  unfolding change_paths
  change_paths_bits [] w j k exist low apart = (refl, refl)
  change_paths_bits (path ∷ paths) w j k ((i, named), exist) low apart =
      let m = mode w i in
      let w1 = (C.stat path w).1 in
      let w2 = C.chmod path (new_mode m) w1 in
      let found = R.stat_done path w i named in
      let (status, bits) = change_paths_bits paths w2 j k exist low apart in
      let type : is_dir (mode w2 j) ≡ is_dir (mode w j) =
        R.chmod_type path (new_mode m) w1 i j named
          (new_mode_type m ∙ sym (ap is_dir (L.stat-frame path w i)))
        ∙ ap is_dir (L.stat-frame path w j) in
      let first : test_bit k (mode w2 j) ≡ (
          if is_inode j (inode path)
          then opened k (is_dir (mode w j)) (test_bit k (mode w j))
          else test_bit k (mode w j)) =
        change_bits path w i j k named low apart in
      rw (change_first path paths w i named) (
        status,
        bits
            ∙ ap
                (λ d.
                  if names inode j paths
                  then opened k d (test_bit k (mode w2 j))
                  else test_bit k (mode w2 j))
                type
            ∙ opened_again k (is_dir (mode w j)) (test_bit k (mode w j)) (test_bit k (mode w2 j))
                (is_inode j (inode path)) (names inode j paths) first,
      )

  -- When all paths name inodes, and all calls succeed, the program returns 0, and the inodes that
  -- are named are given r-xr-xr-x, directories, or r-xr-x--x, others, beside the bits they had,
  -- however often they are named; no other inode changes. Of S_ISGID, the bit 10, nothing is said.
  pub main-opened :
      (program path : CString) (paths : List CString) (w : C.World) (j k : ℕ)
      → All (λ p. (i : ℕ) × (inode p ≡ some i)) (path ∷ paths)
      → k < 12
      → k ≢ 10
      → ((main C (program ∷ path ∷ paths) w).0 ≡ 0)
        × (test_bit k (mode (main C (program ∷ path ∷ paths) w).1 j) ≡ (
            if names inode j (path ∷ paths)
            then opened k (is_dir (mode w j)) (test_bit k (mode w j))
            else test_bit k (mode w j)))
  unfolding main
  main-opened program path paths w j k exist low apart =
      change_paths_bits (path ∷ paths) w j k exist low apart
