-- ===== src/Chmod.antt =====
-- 15-file-attributes/exercise6_chmod.c: a chmod that always does a+rX, over stat() and chmod().
pub mod Modes
pub mod Keeps
pub mod Whole
mod Tests
use Prim.Native.Nat.{bit_and, bit_or}
use linux_programming_interf.Common.{
  ℕ, Bool, Option, none, some, List, [], ◌∷◌, String, CString, ◌==◌, if◌then◌else◌,
}

-- stat() gives the st_mode, or fails. What chmod() returns is never looked at.
pub record Calls : Type 1 where
  pub World : Type 0
  pub stat : CString → World → Option ℕ × World
  pub chmod : CString → ℕ → World → World
  pub print : String → World → World

abbrev pub is_dir : ℕ → Bool
is_dir st_mode = bit_and st_mode 0o170000 == 0o040000

-- The mode that `chmod_directory` computes.
unfoldable pub directory_mode : ℕ → ℕ
directory_mode st_mode = bit_or st_mode 0o555

-- The mode that `chmod_file` computes: S_IRUSR | S_IXUSR | S_IRGRP first, and then all execute
-- bits if one of them is set.
unfoldable pub file_mode : ℕ → ℕ
file_mode st_mode =
    let readable = bit_or st_mode 0o540 in
    if bit_and readable 0o111 == 0 then readable else bit_or readable 0o111

module _ (C : Calls) where
  open C use {World, stat, chmod, print}

  unfoldable pub chmod_directory : CString → ℕ → World → World
  unfolding directory_mode
  chmod_directory path st_mode = chmod path (directory_mode st_mode)

  unfoldable pub chmod_file : CString → ℕ → World → World
  unfolding file_mode
  chmod_file path st_mode = chmod path (file_mode st_mode)

  abbrev print_usage : World → World
  print_usage = print "Usage: ./prog_chomod <filename/directory>\n"

  -- The loop of `main` over the paths, with the exit status.
  unfoldable pub change_paths : List CString → World → ℕ × World
  unfolding chmod_directory chmod_file
  change_paths [] w = (0, w)
  change_paths (path ∷ paths) w =
      let (found, w') = stat path w in
      elim found [
        | none ↦ (1, print_usage (print "File/Directory %s does not exist\n" w'))
        | some st_mode ↦
            change_paths paths (
              if is_dir st_mode
              then chmod_directory path st_mode w'
              else chmod_file path st_mode w')
      ]

  unfoldable pub main : List CString → World → ℕ × World
  unfolding change_paths
  main (program ∷ path ∷ paths) w = change_paths (path ∷ paths) w
  main _ w = (1, print_usage w)
