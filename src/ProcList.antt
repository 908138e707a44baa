-- ===== src/ProcList.antt =====
-- 12-system-and-process-information/proclist.c. The proc file system, strtol() and getpwnam() are
-- parameters.
pub mod Laws
mod Tests
use linux_programming_interf.Common.{
  ℕ, zero, suc, ◌+◌, ◌-◌, ◌/◌, ◌%◌, ◌^◌, Bool, true, false, ◌||◌, ◌&&◌, Option, none, some, List,
  [], ◌∷◌, ◌++◌, CString, codes, str_eq, ◌==◌, ltb, if◌then◌else◌,
}
use linux_programming_interf.Common.Options.{◌>>=◌}
use linux_programming_interf.Common.Output.{Output, text, str}
use linux_programming_interf.ProcLib.Status.{key_value}

-- (uid_t) -1
abbrev pub no_uid : ℕ
no_uid = 2 ^ 32 - 1

-- `strtol` gives the number in a uid_t and the text behind it, `getpwnam` the pw_uid of a user.
module _ (strtol : CString → ℕ × CString) (getpwnam : CString → Option ℕ) where
  unfoldable pub user_id_from_name : CString → ℕ
  user_id_from_name [] = no_uid
  user_id_from_name (c ∷ name) =
      let (u, endptr) = strtol (c ∷ name) in
      elim endptr [
        | [] ↦ u
        | d ∷ rest ↦ elim (getpwnam (c ∷ name)) [ none ↦ no_uid | some pw_uid ↦ pw_uid ]
      ]

-- The decimal digits in front of a text, with fuel for their number.
unfoldable pub digits_onto : ℕ → ℕ → CString → CString
digits_onto zero n s = s
digits_onto (suc fuel) n s =
    let more = digits_onto fuel (n / 10) ((b'0' + n % 10) ∷ s) in
    if ltb n 10 then (b'0' + n) ∷ s else more

-- sprintf() with "%d" of a uid_t, that is of the int with its 32 bits, which has 10 digits at most.
unfoldable pub format_uid : ℕ → CString
unfolding digits_onto
format_uid uid =
    if ltb uid (2 ^ 31) then digits_onto 10 uid [] else b'-' ∷ digits_onto 10 (2 ^ 32 - uid) []

unfoldable pub starts_with : CString → CString → Bool
starts_with s [] = true
starts_with [] (d ∷ t) = false
starts_with (c ∷ s) (d ∷ t) = c == d && starts_with s t

-- strstr(s, t) != NULL
unfoldable pub strstr : CString → CString → Bool
unfolding starts_with
strstr [] t = starts_with [] t
strstr (c ∷ s) t = starts_with (c ∷ s) t || strstr s t

-- The local variables of `check_dir`; `none` is a buffer that is not set.
pub record Found : Type 0 where
  pub keepme : Bool
  pub procname : Option CString
  pub pid : Option CString

abbrev pub nothing : Found
nothing = record { keepme = false; procname = none; pid = none }

-- The three tests of the loop, for a trimmed key and value.
unfoldable pub take_field : CString → CString → CString → Found → Found
take_field uidstr key value f = record {
  keepme = if str_eq key (codes "Uid") && strstr value uidstr then true else f.keepme;
  procname = if str_eq key (codes "Name") then some value else f.procname;
  pid = if str_eq key (codes "Pid") then some value else f.pid;
}

unfoldable pub scan_lines : CString → List CString → Found → Option Found
unfolding take_field
scan_lines uidstr [] f = some f
scan_lines uidstr (line ∷ lines) f = do
  parsed ← key_value line
  scan_lines uidstr lines
      (elim parsed [ none ↦ f | some (key, value) ↦ take_field uidstr key value f ])

-- `status` gives the lines of a status file as fgets() reads them, if it can be opened. The result
-- is what is printed; `none` is a read of a buffer that is not set, or in front of a line.
module _ (status : CString → Option (List CString)) where
  unfoldable pub check_dir : CString → ℕ → Option Output
  unfolding scan_lines format_uid
  check_dir dirname uid = elim (status (dirname ++ codes "/status")) [
    | none ↦ some []
    | some lines ↦ (do
      f ← scan_lines (format_uid uid) lines nothing
      if f.keepme
          then (do
            pid ← f.pid
            procname ← f.procname
            some (str pid ∷ text ": " ∷ str procname ∷ text "\n" ∷ []))
          else some [])
  ]

  -- The loop over the entries of /proc, and whether each is a directory or a link.
  unfoldable pub check_all : ℕ → List (CString × Bool) → Option Output
  unfolding check_dir
  check_all uid [] = some []
  check_all uid ((d_name, is_dir) ∷ rest) = do
    shown ← (if is_dir then check_dir (codes "/proc/" ++ d_name) uid else some [])
    others ← check_all uid rest
    some (shown ++ others)

  -- The exit status and the output; `entries` is none where opendir() fails.
  unfoldable pub main :
      (CString → ℕ × CString)
      → (CString → Option ℕ)
      → List CString
      → Option (List (CString × Bool))
      → Option (ℕ × Output)
  unfolding check_all user_id_from_name
  main strtol getpwnam (program ∷ name ∷ []) entries =
      let uid = user_id_from_name strtol getpwnam name in
      if uid == no_uid
      then some (1, text "Invalid username specified (not found)\n" ∷ [])
      else elim entries [
        | none ↦ some (1, text "Unabled to open /proc" ∷ [])
        | some found ↦ (do out ← check_all uid found; some (0, out))
      ]
  main strtol getpwnam (program ∷ _) entries =
      some (1, text "Usage: " ∷ str program ∷ text " <username>\n" ∷ [])
  main strtol getpwnam [] entries = some (1, text "Usage: " ∷ text " <username>\n" ∷ [])
