-- ===== src/Chmod/Keeps.antt =====
-- 15-file-attributes/exercise6_chmod.c takes no permission away.
use linux_programming_interf.Common.{
  ℕ, ◌≤◌, ◌≡◌, ◌≢◌, sym, ap, ◌∙◌, ◌⊎◌, inl, inr, Option, none, some, List, [], ◌∷◌, String, CString,
  arith, Option-cases, Bool-cases,
}
use linux_programming_interf.Common.Bits.{test_bit}
use linux_programming_interf.Chmod.{
  Calls, is_dir, chmod_directory, chmod_file, directory_mode, file_mode, change_paths,
}
use linux_programming_interf.Chmod.Modes.{directory_mode-le, file_mode-le}

-- The documented behaviour of the calls, while no path is made to name another inode. chmod()
-- replaces the low 12 bits of a mode, or fails and changes nothing. S_ISGID, the bit 10, may be cleared
-- whatever was asked for.
pub record IsLawful (C : Calls) : Type 0 where
  pub inode : CString → Option ℕ
  pub mode : C.World → ℕ → ℕ
  pub stat-some :
      (path : CString) (w : C.World) {m : ℕ}
      → (C.stat path w).0 ≡ some m
      → (i : ℕ) × (inode path ≡ some i) × (mode w i ≡ m)
  pub stat-frame : (path : CString) (w : C.World) (i : ℕ) → mode (C.stat path w).1 i ≡ mode w i
  pub chmod_bits :
      (path : CString) (m : ℕ) (w : C.World) (i k : ℕ)
      → k ≢ 10
      → (test_bit k (mode (C.chmod path m w) i) ≡ test_bit k (mode w i))
        ⊎ (inode path ≡ some i) × (test_bit k (mode (C.chmod path m w) i) ≡ test_bit k m)
  pub print-frame : (s : String) (w : C.World) (i : ℕ) → mode (C.print s w) i ≡ mode w i

module _ (C : Calls) (L : IsLawful C) where
  open L use {inode, mode}

  chmod-keeps :
      (path : CString) (m m' : ℕ) (w : C.World) (i k : ℕ)
      → (C.stat path w).0 ≡ some m
      → k ≢ 10
      → test_bit k m ≤ test_bit k m'
      → test_bit k (mode w i) ≤ test_bit k (mode (C.chmod path m' (C.stat path w).1) i)
  chmod-keeps path m m' w i k found other le =
      let w' = (C.stat path w).1 in
      let same = ap (test_bit k) (L.stat-frame path w i) in
      let (j, named, at) = L.stat-some path w found in
      elim (L.chmod_bits path m' w' i k other) [
        | inl p ↦ omega (arith, p, same)
        | inr (named', p) ↦
            let here : mode w i ≡ m = ap (λ o. mode w (or_zero o)) (sym named' ∙ named) ∙ at in
            omega (arith, p, ap (test_bit k) here)
      ]
    where
      or_zero : Option ℕ → ℕ
      or_zero none = 0
      or_zero (some n) = n

  -- For all paths and whatever chmod() achieves, every mode bit of every inode, S_ISGID apart, that
  -- is set before the run is set after it.
  pub change_paths-keeps :
      (paths : List CString) (w : C.World) (i k : ℕ)
      → k ≢ 10
      → test_bit k (mode w i) ≤ test_bit k (mode (change_paths C paths w).1 i)
  unfolding change_paths chmod_directory chmod_file
  change_paths-keeps [] w i k other = omega arith
  change_paths-keeps (path ∷ paths) w i k other = elim (Option-cases (C.stat path w).0) [
    | inl missing ↦
        let w' = (C.stat path w).1 in
        let w1 = C.print "File/Directory %s does not exist\n" w' in
        rw (missing, change_paths)
          (omega (
            arith,
            ap (test_bit k) (
                L.print-frame "Usage: ./prog_chomod <filename/directory>\n" w1 i
                ∙ L.print-frame "File/Directory %s does not exist\n" w' i
                ∙ L.stat-frame path w i),
          ))
    | inr (m, found) ↦ elim (Bool-cases (is_dir m)) [
      | inl dir ↦
          rw (found, change_paths, dir)
            (omega (
              arith,
              chmod-keeps path m (directory_mode m) w i k found other (directory_mode-le k m),
              change_paths-keeps paths (C.chmod path (directory_mode m) (C.stat path w).1) i k
                  other,
            ))
      | inr file ↦
          rw (found, change_paths, file)
            (omega (
              arith,
              chmod-keeps path m (file_mode m) w i k found other (file_mode-le k m),
              change_paths-keeps paths (C.chmod path (file_mode m) (C.stat path w).1) i k other,
            ))
    ]
  ]
