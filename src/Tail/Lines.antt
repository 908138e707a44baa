-- ===== src/Tail/Lines.antt =====
-- The lines that 13-file-io-buffering/tail.c shows.
use linux_programming_interf.Common.{
  ℕ, suc, ◌+◌, ◌-◌, ◌≤◌, ◌<◌, ◌≡◌, ◌≢◌, refl, sym, ap, ◌∙◌, none, some, List, [], ◌∷◌, ◌++◌, arith,
  length, length-append, drop, leb, Bool-cases, inl, inr, ◌⊎◌,
}
use linux_programming_interf.Common.Int.{pos}
use linux_programming_interf.Files.{Calls, seek_set, IsRegular, IsReliable, IsFull}
use linux_programming_interf.Files.Written.{filled}
use linux_programming_interf.Common.Outcome.{ok, fault}
use linux_programming_interf.Tail.{buffer_size, surplus, difference, stdout, show_lines, tail_lines}
use linux_programming_interf.Tail.Text.{str_occurrences, str_occurrence_offset}
use linux_programming_interf.Tail.Strings.{NoNul, skip_occurrences-Skipped}
use linux_programming_interf.Tail.Laws.{
  at, scanned, buffer_string-start, scan_once, scan_overflows, show_from, seek_back, drop-length,
  tail_file-filled,
}

-- The run of the program on `fd` ends and puts `t` behind `done`, what the output has.
abbrev pub Shows : (C : Calls) → IsRegular C → ℕ → ℕ → C.World → List ℕ → ℕ → List ℕ → Type 0
Shows C R fuel fd w done k t =
    (w' : C.World) × (tail_lines C fuel fd (pos k) w ≡ ok w')
    × (R.view w' stdout ≡ some (filled (done ++ t)))

-- A file, shorter than the buffer and without NUL, that is open at its start, and a standard output
-- that has `done`.
module _ (C : Calls) (R : IsRegular C) (D : IsReliable C R) (F : IsFull C R) (fuel fd : ℕ)
    (w : C.World) (s done : List ℕ) (ne : fd ≢ stdout) (vi : R.view w fd ≡ some (at s 0))
    (vo : R.view w stdout ≡ some (filled done)) (clean : NoNul s) (small : length s < buffer_size)
    (enough : length s < suc fuel) where
  Shows-all : (k : ℕ) → str_occurrences s b'\n' < k → Shows C R (suc fuel) fd w done k s
  unfolding tail_lines show_lines
  Shows-all k few =
      let (run, vi1) = scan_once C R D F fuel fd (pos k) w s vi clean small in
      let w1 = (C.read fd buffer_size w).1 in
      let kept = R.read-frame fd buffer_size stdout w (λ e. ne (sym e)) ∙ vo in
      let missing : surplus (scanned s).curline (pos k) ≡ none = ground arith in
      let (moved, vi2) = R.lseek-some fd (pos 0) seek_set w1 vi1 refl (omega arith) in
      let vo2 = R.lseek-frame fd stdout (pos 0) seek_set w1 (λ e. ne (sym e)) ∙ kept in
      let (w', ended, out) =
        tail_file-filled C R D F (suc fuel) fd (C.lseek fd (pos 0) seek_set w1).1 s 0 done ne vi2
          vo2 (omega arith) in
      (w', rw (run, tail_lines, missing, show_lines) ended, out)

  faults : (k : ℕ) → str_occurrences s b'\n' ≡ k → tail_lines C (suc fuel) fd (pos k) w ≡ fault
  unfolding tail_lines show_lines str_occurrence_offset
  faults k same =
      let (run, vi1) = scan_once C R D F fuel fd (pos k) w s vi clean small in
      let none_more : surplus (scanned s).curline (pos k) ≡ some 0 = ground arith in
      rw (run, tail_lines, none_more, show_lines, buffer_string-start s clean small) refl

  Shows-last :
      (k : ℕ)
      → k < str_occurrences s b'\n'
      → (p q t : List ℕ) × (s ≡ p ++ t)
        × (p ≡ q ++ b'\n' ∷ [])
        × (str_occurrences t b'\n' ≡ k)
        × Shows C R (suc fuel) fd w done k t
  unfolding tail_lines show_lines str_occurrence_offset
  Shows-last k more =
      let n : ℕ = str_occurrences s b'\n' - k - 1 in
      let (run, vi1) = scan_once C R D F fuel fd (pos k) w s vi clean small in
      let w1 = (C.read fd buffer_size w).1 in
      let kept = R.read-frame fd buffer_size stdout w (λ e. ne (sym e)) ∙ vo in
      let left : surplus (scanned s).curline (pos k) ≡ some (suc n) = ground arith in
      let (p, t, rest) = skip_occurrences-Skipped (suc n) s b'\n' (omega arith) in
      let (skipped, split, count, ends) = rest in
      let (q, ended_by) = ends (omega arith) in
      let le : length p ≤ length s = omega (arith, ap length split, length-append p t) in
      let off = difference (0 + length p) (0 + length s) in
      let (w', ended, out) =
        show_from C R D F (suc fuel) fd off w1 s (length p) done ne vi1 kept
          (seek_back s (length p) le) le small enough in
      let tail : drop (length p) s ≡ t = ap (drop (length p)) split ∙ drop-length p t in
      (
        p,
        q,
        t,
        split,
        ended_by,
        omega arith,
        (
          w',
          rw (run, tail_lines, left, show_lines, buffer_string-start s clean small, skipped) ended,
          out ∙ ap (λ l. some (filled (done ++ l))) tail,
        ),
      )

-- A file without NUL that is open at its start, and a standard output that has `done`.
module _ (C : Calls) (R : IsRegular C) (D : IsReliable C R) (F : IsFull C R) (fuel fd : ℕ)
    (w : C.World) (s done : List ℕ) (ne : fd ≢ stdout) (vi : R.view w fd ≡ some (at s 0))
    (vo : R.view w stdout ≡ some (filled done)) (clean : NoNul s)
    (enough : length s < suc fuel) where
  -- A file that fills the buffer is read past the end of it. Of a shorter file with fewer newlines
  -- than the number of lines asked for the whole is shown, and of one with more of them what follows
  -- a newline and has as many newlines as lines were asked for. With exactly as many the program
  -- uses a pointer that is not set.
  pub tail_lines-Shows :
      (k : ℕ)
      → ((buffer_size ≤ length s) × (tail_lines C (suc fuel) fd (pos k) w ≡ fault))
        ⊎ ((str_occurrences s b'\n' < k) × Shows C R (suc fuel) fd w done k s)
        ⊎ ((str_occurrences s b'\n' ≡ k) × (tail_lines C (suc fuel) fd (pos k) w ≡ fault))
        ⊎ ((k < str_occurrences s b'\n')
            × ((p q t : List ℕ) × (s ≡ p ++ t)
                × (p ≡ q ++ b'\n' ∷ [])
                × (str_occurrences t b'\n' ≡ k)
                × Shows C R (suc fuel) fd w done k t))
  unfolding tail_lines
  tail_lines-Shows k = elim (Bool-cases (leb buffer_size (length s))) [
    | inl large ↦
        let size : buffer_size ≤ length s = ground arith in
        inl (size, rw (scan_overflows C R D F fuel fd (pos k) w s vi clean size, tail_lines) refl)
    | inr fits ↦
        let small : length s < buffer_size = ground arith in
        elim (Bool-cases (leb k (str_occurrences s b'\n'))) [
          | inr less ↦ inr (
              inl (
                ground arith,
                Shows-all C R D F fuel fd w s done ne vi vo clean small enough k (ground arith),
              ))
          | inl le ↦ elim (Bool-cases (leb (str_occurrences s b'\n') k)) [
            | inl ge ↦ inr (
                inr (
                  inl (
                    ground arith,
                    faults C R D F fuel fd w s done ne vi vo clean small enough k (ground arith),
                  )))
            | inr more ↦ inr (
                inr (
                  inr (
                    ground arith,
                    Shows-last C R D F fuel fd w s done ne vi vo clean small enough k
                        (ground arith),
                  )))
          ]
        ]
  ]
