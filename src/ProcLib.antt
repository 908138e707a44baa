-- ===== src/ProcLib.antt =====
-- 12-system-and-process-information/proclib.c: trim().
pub mod Laws
pub mod Status
mod Tests
use linux_programming_interf.Common.{
  ℕ, zero, suc, Bool, ◌||◌, ◌&&◌, Option, none, some, List, [], ◌∷◌, CString, ◌==◌, leb, length,
  take, get_or, if◌then◌else◌,
}

-- isspace() in the C locale
abbrev pub isspace : ℕ → Bool
isspace c = c == 32 || (leb 9 c && leb c 13)

-- What is read in front of the string: its byte, where the string stands behind it in one array.
-- `none` is a read out of bounds, or a write in front of the string.
abbrev pub edge : Option ℕ → Option CString
edge none = none
edge (some c) = if isspace c then none else some []

-- The loop that cuts spaces off the end of a string of `l` bytes.
unfoldable pub trim_end : Option ℕ → ℕ → CString → Option CString
trim_end before zero s = edge before
trim_end before (suc l) s =
    let rest = trim_end before l (take l s) in if isspace (get_or s l 0) then rest else some s

-- The loop that moves to the first byte that is no space.
unfoldable pub skip_spaces : CString → CString
skip_spaces [] = []
skip_spaces (c ∷ s) = let rest = skip_spaces s in if isspace c then rest else c ∷ s

-- memmove() puts what is left at the start.
unfoldable pub trim : Option ℕ → CString → Option CString
unfolding trim_end skip_spaces
trim before s = elim (trim_end before (length s) s) [
  | none ↦ none
  | some cut ↦ some (skip_spaces cut)
]
