-- ===== src/TStat.antt =====
-- 15-file-attributes/exercise3_tstat.c. A number in the output stands for its text.
use linux_programming_interf.Common.{
  ℕ, zero, suc, ◌+◌, ◌-◌, ◌/◌, ◌%◌, Bool, ◌||◌, Option, none, some, List, [], ◌∷◌, ◌++◌, CString,
  codes, str_eq, ◌==◌, ltb, length, replicate, if◌then◌else◌,
}
use Prim.Native.Nat.{bit_and}
use linux_programming_interf.Common.Output.{Output, text, str, num}

-- What stat() tells of a time: the seconds and the nanoseconds.
pub record Time : Type 0 where
  pub seconds : ℕ
  pub nsec : ℕ

pub record Stat : Type 0 where
  pub st_dev : ℕ
  pub st_ino : ℕ
  pub st_mode : ℕ
  pub st_nlink : ℕ
  pub st_uid : ℕ
  pub st_gid : ℕ
  pub st_rdev : ℕ
  pub st_size : ℕ
  pub st_blksize : ℕ
  pub st_blocks : ℕ
  pub st_atim : Time
  pub st_mtim : Time
  pub st_ctim : Time

pub record System : Type 0 where
  -- stat() and lstat()
  pub stat : CString → Option Stat
  pub lstat : CString → Option Stat
  -- major() and minor() of a device
  pub major : ℕ → ℕ
  pub minor : ℕ → ℕ
  -- strftime() with a format for what localtime() gives
  pub strftime : CString → ℕ → CString

-- The digits of a number to a base in front of a text, with fuel for their number.
unfoldable pub digits_onto : ℕ → ℕ → ℕ → CString → CString
digits_onto base zero n s = s
digits_onto base (suc fuel) n s =
    let more = digits_onto base fuel (n / base) ((b'0' + n % base) ∷ s) in
    if ltb n base then (b'0' + n) ∷ s else more

-- "%09ld" of a number of at most 9 digits
abbrev pub nine_digits : ℕ → CString
nine_digits n = let digits = digits_onto 10 9 n [] in replicate (9 - length digits) b'0' ++ digits

-- "%lo" of an unsigned long
abbrev pub octal : ℕ → CString
octal n = digits_onto 8 22 n []

-- The bits of st_mode.
abbrev pub s_ifmt : ℕ
s_ifmt = 0o170000

abbrev pub s_ifchr : ℕ
s_ifchr = 0o20000

abbrev pub s_ifblk : ℕ
s_ifblk = 0o60000

-- The type of a file, by `st_mode & S_IFMT`.
unfoldable pub file_type : ℕ → CString
file_type type =
    if type == 0o100000
    then codes "regular file\n"
    else (if type == 0o40000
        then codes "directory\n"
        else (if type == s_ifchr
            then codes "character device\n"
            else (if type == s_ifblk
                then codes "block device\n"
                else (if type == 0o120000
                    then codes "symbolic (soft) link\n"
                    else (if type == 0o10000
                        then codes "FIFO or pipe\n"
                        else (if type == 0o140000
                            then codes "socket\n"
                            else codes "unknown file type?\n"))))))

abbrev pub is_device : ℕ → Bool
is_device mode = (bit_and mode s_ifmt == s_ifchr) || (bit_and mode s_ifmt == s_ifblk)

-- The name of a bit that is set.
abbrev pub if_set : ℕ → ℕ → CString → CString
if_set mode bit name = if bit_and mode bit == 0 then [] else name

abbrev pub special_bits : ℕ → Output
special_bits mode =
    if bit_and mode 0o7000 == 0
    then []
    else text "    special bits set:     "
      ∷ str (if_set mode 0o4000 (codes "set-UID "))
      ∷ str (if_set mode 0o2000 (codes "set-GID "))
      ∷ str (if_set mode 0o1000 (codes "sticky "))
      ∷ text "\n"
      ∷ []

module _ (S : System) where
  open S use {stat, lstat, major, minor, strftime}

  unfoldable pub fmttime : Time → CString
  unfolding digits_onto
  fmttime time =
      strftime (codes "%a %b %d %H:%M:%S") time.seconds
      ++ ((b'.' ∷ nine_digits time.nsec) ++ strftime (codes " %Y\n") time.seconds)

  abbrev pub device : Stat → Output
  device sb =
      if is_device sb.st_mode
      then text "Device number (st_rdev):  major="
        ∷ num (major sb.st_rdev)
        ∷ text "; minor="
        ∷ num (minor sb.st_rdev)
        ∷ text "\n"
        ∷ []
      else []

  abbrev pub sizes : Stat → Output
  sizes sb =
      text "File size:                "
      ∷ num sb.st_size
      ∷ text " bytes\nOptimal I/O block size:   "
      ∷ num sb.st_blksize
      ∷ text " bytes\n512B blocks allocated:    "
      ∷ num sb.st_blocks
      ∷ text "\n"
      ∷ []

  abbrev pub times : Stat → Output
  unfolding fmttime
  times sb =
      text "Last file access:         "
      ∷ str (fmttime sb.st_atim)
      ∷ text "Last file modification:   "
      ∷ str (fmttime sb.st_mtim)
      ∷ text "Last status change:       "
      ∷ str (fmttime sb.st_ctim)
      ∷ []

  -- In a 64-bit process, where no field is negative as a long.
  unfoldable pub display_stat_info : Stat → Output
  unfolding file_type fmttime digits_onto
  display_stat_info sb =
      text "File type:                "
      ∷ str (file_type (bit_and sb.st_mode s_ifmt))
      ∷ text "Device containing i-node: major="
      ∷ num (major sb.st_dev)
      ∷ text "   minor="
      ∷ num (minor sb.st_dev)
      ∷ text "\nI-node number:            "
      ∷ num sb.st_ino
      ∷ text "\nMode:                     "
      ∷ str (octal sb.st_mode)
      ∷ text "\n"
      ∷ (special_bits sb.st_mode
          ++ (text "Number of (hard) links:   "
              ∷ num sb.st_nlink
              ∷ text "\nOwnership:                UID="
              ∷ num sb.st_uid
              ∷ text "   GID="
              ∷ num sb.st_gid
              ∷ text "\n"
              ∷ (device sb ++ (sizes sb ++ times sb))))

  abbrev pub usage : CString → Output
  usage program = str program ∷ text " [-l] file\n        -l = use lstat() instead of stat()\n" ∷ []

  abbrev pub show : CString → Option Stat → ℕ × Output
  show failure none = (1, str failure ∷ [])
  show failure (some sb) = (0, display_stat_info sb)

  -- The exit status and what is printed.
  unfoldable pub main : List CString → ℕ × Output
  unfolding display_stat_info
  main (program ∷ first ∷ more) =
      if str_eq first (codes "-l")
      then (elim more [
        | [] ↦ (1, usage program)
        | fname ∷ rest ↦ show (codes "error: lstat\n") (lstat fname)
      ])
      else (if str_eq first (codes "--help")
          then (1, usage program)
          else show (codes "error: stat\n") (stat first))
  main (program ∷ []) = (1, usage program)
  main [] = (1, usage [])
