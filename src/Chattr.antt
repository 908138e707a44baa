-- ===== src/Chattr.antt =====
-- 15-file-attributes/chattr.c: `do_action` and `main` over the system calls they make, which are
-- parameters.
pub mod Attrs
pub mod Masks
pub mod Kernel
pub mod Action
pub mod Whole
mod Tests
use linux_programming_interf.Common.{
  ℕ, ◌-◌, ◌%◌, ◌^◌, Bool, true, false, Option, none, some, List, [], ◌∷◌, String, CString, ◌==◌,
  ltb, length, if◌then◌else◌,
}
use Attrs.{
  get_mask_for_attrs, validate_mode_string, transform_attrs_add, transform_attrs_remove,
  transform_attrs_only,
}
use Kernel.{Calls}

-- How the program ends: `main` returns, or exit() is called.
pub data End : Type 0 where
  returned : ℕ → End
  exited : ℕ → End

abbrev pub exit_failure : ℕ
exit_failure = 1

-- `fd` is a size_t, so the -1 of a failed open() is the largest value.
abbrev pub as_size : Option ℕ → ℕ
as_size none = 2 ^ 64 - 1
as_size (some fd) = fd

module _ (C : Calls) where
  open C use {World, open_file, get_flags, set_flags, close, print}

  -- The loop body of `do_action` from the message about the current flags to its end.
  unfoldable pub set_new_flags : (ℕ → ℕ → ℕ) → ℕ → ℕ → ℕ → World → World
  set_new_flags transform_attrs mask fd current_attrs w0 =
      let w1 = print "cur attrs: 0x%08x, mask: 0x%08X\n" w0 in
      let new_attrs = transform_attrs current_attrs mask in
      let w2 = print "new attrs: 0x%08X\n" w1 in
      let (done, w3) = set_flags fd new_attrs w2 in
      close fd (if done then w3 else print "ERROR: Unable to set flags on %s, skipping\n" w3)

  -- From the first ioctl() to the end.
  unfoldable pub update_flags : (ℕ → ℕ → ℕ) → ℕ → ℕ → World → World
  update_flags transform_attrs mask fd w0 =
      let (current, w1) = get_flags fd w0 in
      elim current [
        | none ↦ close fd (print "ERROR: Unable to get flags on %s, skipping\n" w1)
        | some current_attrs ↦ set_new_flags transform_attrs mask fd current_attrs w1
      ]

  -- The body of the loop of `do_action`, for one file. ioctl() and close() take the descriptor as
  -- an int.
  unfoldable pub change_file : (ℕ → ℕ → ℕ) → ℕ → CString → World → World
  change_file transform_attrs mask filename w0 =
      let (opened, w1) = open_file filename w0 in
      let fd = as_size opened in
      if ltb fd 0
      then print "ERROR: Unable to open %s, skipping\n" w1
      else update_flags transform_attrs mask (fd % 2 ^ 32) w1

  -- The loop of `do_action`.
  unfoldable pub change_files : (ℕ → ℕ → ℕ) → ℕ → List CString → World → World
  change_files transform_attrs mask [] w = w
  change_files transform_attrs mask (file ∷ files) w =
      change_files transform_attrs mask files (change_file transform_attrs mask file w)

  unfoldable pub do_action : CString → List CString → (ℕ → ℕ → ℕ) → World → End × World
  do_action attrs files transform_attrs w = elim (get_mask_for_attrs attrs) [
    | none ↦ (exited exit_failure, print "ERROR: Invalid Attr '%c'\n" w)
    | some mask ↦ (returned 0, change_files transform_attrs mask files w)
  ]

  -- The switch of `main` on the first character of the mode string.
  unfoldable pub dispatch : ℕ → CString → List CString → World → End × World
  dispatch action attrs files w =
      if action == b'+'
      then do_action attrs files transform_attrs_add w
      else if action == b'-'
      then do_action attrs files transform_attrs_remove w
      else if action == b'='
      then do_action attrs files transform_attrs_only w
      else (returned 0, w)

  abbrev usage : World → End × World
  usage w = (exited exit_failure, print "Usage: ./prog_chattr [mode] files\n" w)

  -- What `validate_mode_string` prints before the usage message.
  abbrev complaint : CString → String
  complaint mode =
      if ltb (length mode) 2
      then "ERROR: Invalid mode string specified (too short)\n"
      else "ERROR: Attribute '%c' is invalid\n"

  unfoldable pub main : List CString → World → End × World
  main (program ∷ [] ∷ file ∷ files) w = usage (print (complaint []) w)
  main (program ∷ (action ∷ attrs) ∷ file ∷ files) w =
      if validate_mode_string (action ∷ attrs)
      then dispatch action attrs (file ∷ files) w
      else usage (print (complaint (action ∷ attrs)) w)
  main _ w = usage w
