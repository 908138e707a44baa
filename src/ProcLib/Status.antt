-- ===== src/ProcLib/Status.antt =====
-- The key and the value of a line of a /proc/PID/status file, as the loops of pstree.c, proclist.c
-- and sherlock.c in 12-system-and-process-information take them apart.
use linux_programming_interf.Common.{ℕ, Option, none, some, [], ◌∷◌, CString, ◌==◌, if◌then◌else◌}
use linux_programming_interf.Common.Options.{◌>>=◌}
use linux_programming_interf.ProcLib.{trim}

-- strtok() for ":" on what is left of a line: the token and the rest behind its delimiter.
unfoldable pub token : CString → CString × CString
token [] = ([], [])
token (c ∷ s) = let (first, rest) = token s in if c == b':' then ([], s) else (c ∷ first, rest)

unfoldable pub skip_colons : CString → CString
skip_colons [] = []
skip_colons (c ∷ s) = let rest = skip_colons s in if c == b':' then rest else c ∷ s

unfoldable pub strtok : CString → Option (CString × CString)
unfolding token skip_colons
strtok s = elim (skip_colons s) [ [] ↦ none | c ∷ rest ↦ some (token (c ∷ rest)) ]

-- The byte in front of the first token: a colon that is skipped, or none of the line.
abbrev pub in_front : CString → Option ℕ
in_front [] = none
in_front (c ∷ s) = if c == b':' then some c else none

-- The two tokens, trimmed; `some none` where one is missing, and `none` for a read in front of the
-- line. In front of the value stands a colon, or the NUL that ends the key.
unfoldable pub key_value : CString → Option (Option (CString × CString))
unfolding strtok trim
key_value line = elim (strtok line) [
  | none ↦ some none
  | some (key, rest) ↦ elim (strtok rest) [
    | none ↦ some none
    | some (value, _) ↦ (do
      key' ← trim (in_front line) key
      value' ← trim (some 0) value
      some (some (key', value')))
  ]
]
