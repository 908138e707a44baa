-- ===== src/Tail/Text.antt =====
-- The functions on strings of 13-file-io-buffering/tail.c.
use linux_programming_interf.Common.{
  ℕ, zero, suc, ◌+◌, Option, none, some, [], ◌∷◌, CString, ◌==◌, drop, if◌then◌else◌,
}
use linux_programming_interf.Common.Options.{◌>>=◌}

-- The index of the first `c`.
unfoldable pub strchr : CString → ℕ → Option ℕ
strchr [] c = none
strchr (b ∷ s) c = let rest = strchr s c in if b == c then some 0 else (do i ← rest; some (suc i))

-- The loop of `str_occurrences` finds each `c` in turn.
unfoldable pub str_occurrences : CString → ℕ → ℕ
str_occurrences [] c = 0
str_occurrences (b ∷ s) c = let rest = str_occurrences s c in if b == c then suc rest else rest

-- The loop of `str_occurrence_offset` for `n` rounds: the index behind the last of them. `none` is
-- the return of NULL.
unfoldable pub skip_occurrences : CString → ℕ → ℕ → Option ℕ
unfolding strchr
skip_occurrences s c zero = some 0
skip_occurrences s c (suc n) = do
  i ← strchr s c
  k ← skip_occurrences (drop (suc i) s) c n
  some (suc i + k)

-- The index of the result; `none` is the use of a pointer that is not set, for no occurrence, or of
-- NULL.
unfoldable pub str_occurrence_offset : CString → ℕ → ℕ → Option ℕ
unfolding skip_occurrences
str_occurrence_offset s c zero = none
str_occurrence_offset s c (suc n) = skip_occurrences s c (suc n)
