-- ===== src/Sherlock.antt =====
-- 12-system-and-process-information/sherlock.c. The proc file system is a parameter.
pub mod Laws
mod Tests
use linux_programming_interf.Common.{
  ℕ, Bool, true, false, Option, none, some, List, [], ◌∷◌, ◌++◌, CString, codes, str_eq,
  if◌then◌else◌,
}
use linux_programming_interf.Common.Options.{◌>>=◌}
use linux_programming_interf.Common.Output.{Output, text, str}
use linux_programming_interf.ProcLib.Status.{key_value}

-- The local buffers of `print_proc`; `none` is a buffer that is not set.
pub record Fields : Type 0 where
  pub procname : Option CString
  pub pid : Option CString

unfoldable pub set_field : CString → CString → Fields → Fields
set_field key value f =
    if str_eq key (codes "Pid")
    then record f { pid = some value }
    else if str_eq key (codes "Name")
    then record f { procname = some value }
    else f

unfoldable pub scan_lines : List CString → Fields → Option Fields
unfolding set_field
scan_lines [] f = some f
scan_lines (line ∷ lines) f = do
  parsed ← key_value line
  scan_lines lines (elim parsed [ none ↦ f | some (key, value) ↦ set_field key value f ])

-- What a file name in a directory is, and whether it is a symbolic link or a directory.
pub data EntryType : Type 0 where
  directory link other : EntryType

abbrev pub is_directory : EntryType → Bool
is_directory directory = true
is_directory _ = false

abbrev pub is_link : EntryType → Bool
is_link link = true
is_link _ = false

-- The size that readlink() gets.
abbrev pub target_size : ℕ
target_size = 1023

-- `status` gives the lines of a file as fgets() reads them, `entries` what readdir() gives of a
-- directory, each none if it cannot be opened, and `readlink` at most so many bytes of the target
-- of a link, if it can be read.
pub record ProcFs : Type 0 where
  pub status : CString → Option (List CString)
  pub entries : CString → Option (List (CString × EntryType))
  pub readlink : CString → ℕ → Option CString

module _ (P : ProcFs) where
  open P use {status, entries, readlink}

  -- What is printed; `none` is a read of a buffer that is not set, or in front of a line.
  unfoldable pub print_proc : CString → Option Output
  unfolding scan_lines
  print_proc dirname = elim (status (dirname ++ codes "/status")) [
    | none ↦ some []
    | some lines ↦ (do
      f ← scan_lines lines (record { procname = none; pid = none })
      procname ← f.procname
      pid ← f.pid
      some (str procname ∷ text " (pid: " ∷ str pid ∷ text ")\n" ∷ []))
  ]

  -- The test of one entry: `len > 0`, and the target is the path.
  unfoldable pub matches : CString → CString → EntryType → CString → Bool
  matches match dirname type d_name =
      if is_link type
      then elim (readlink (dirname ++ (codes "/fd/" ++ d_name)) target_size) [
        | none ↦ false
        | some [] ↦ false
        | some (c ∷ target) ↦ str_eq (c ∷ target) match
      ]
      else false

  -- The loop over the entries; `true` is the return of 0.
  unfoldable pub search_links : CString → CString → List (CString × EntryType) → Bool
  unfolding matches
  search_links match dirname [] = false
  search_links match dirname ((d_name, type) ∷ rest) =
      let further = search_links match dirname rest in
      if matches match dirname type d_name then true else further

  unfoldable pub check_process : CString → CString → Bool
  unfolding search_links
  check_process dirname match = elim (entries (dirname ++ codes "/fd")) [
    | none ↦ false
    | some found ↦ search_links match dirname found
  ]

  -- The loop over the entries of /proc.
  unfoldable pub check_all : CString → List (CString × EntryType) → Option Output
  unfolding check_process print_proc
  check_all match [] = some []
  check_all match ((d_name, type) ∷ rest) = do
    let dirname = codes "/proc/" ++ d_name
    shown ←
        (if is_directory type
          then (if check_process dirname match then print_proc dirname else some [])
          else some [])
    others ← check_all match rest
    some (shown ++ others)

  -- The exit status and the output.
  unfoldable pub main : List CString → Option (ℕ × Output)
  unfolding check_all
  main (program ∷ match ∷ []) =
      let heading = text "Processes with handles to \"" ∷ str match ∷ text "\":\n" ∷ [] in
      elim (entries (codes "/proc")) [
        | none ↦ some (1, heading ++ text "Unabled to open /proc" ∷ [])
        | some found ↦ (do out ← check_all match found; some (0, heading ++ out))
      ]
  main (program ∷ _) = some (1, text "Usage: " ∷ str program ∷ text " <filepath>" ∷ [])
  main [] = some (1, text "Usage: " ∷ text " <filepath>" ∷ [])
