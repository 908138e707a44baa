-- ===== src/Tail/Laws.antt =====
-- What 13-file-io-buffering/tail.c shows of a file that fits in its buffer.
use linux_programming_interf.Common.{
  length-replicate, none, take, buffer_string, ℕ, zero, suc, ◌+◌, ◌-◌, ◌≤◌, ◌<◌, ◌≡◌, ◌≢◌, refl,
  sym, ap, ◌∙◌, true, false, some, inl, inr, List, [], ◌∷◌, ◌++◌, arith, leb, length, length-take,
  length-drop, drop, take_all, drop_all, replicate, Bool-cases, Option-cases,
}
use mathlib.Core.List.{append_assoc, append-nil}
use linux_programming_interf.Common.Int.{ℤ}
use linux_programming_interf.Files.{
  Calls, View, written, seek, seek_end, IsRegular, IsReliable, IsFull,
}
use linux_programming_interf.Files.Written.{filled, written-filled, read_split}
use linux_programming_interf.Common.Outcome.{fault, ok}
use linux_programming_interf.Tail.{
  buffer_size, Scan, start, add_read, is_full, difference, stdout, tail_file, scan,
}
use linux_programming_interf.Tail.Text.{str_occurrences}
use linux_programming_interf.Tail.Strings.{
  buffer_string-none, NoNul-take, NoNul, buffer_string-append,
}

abbrev pub at : List ℕ → ℕ → View
at s o = record { content = s; offset = o; append = false }

-- From any offset on, the rest of the file is written behind what the output has.
module _ (C : Calls) (R : IsRegular C) (D : IsReliable C R) (F : IsFull C R) where
  open R use {view}

  pub tail_file-filled :
      (fuel fd : ℕ) (w : C.World) (s : List ℕ) (o : ℕ) (done : List ℕ)
      → fd ≢ stdout
      → view w fd ≡ some (at s o)
      → view w stdout ≡ some (filled done)
      → length s - o < fuel
      → (w' : C.World) × (tail_file C fuel fd w ≡ ok w')
        × (view w' stdout ≡ some (filled (done ++ drop o s)))
  unfolding tail_file
  tail_file-filled zero fd w s o done ne vi vo enough = absurd (omega arith)
  tail_file-filled (suc fuel) fd w s o done ne vi vo enough =
      let kept = R.read-frame fd buffer_size stdout w (λ k. ne (sym k)) ∙ vo in
      let w1 = (C.read fd buffer_size w).1 in
      elim (Option-cases (C.read fd buffer_size w).0) [
        | inl failed ↦ absurd (D.read_done fd buffer_size w vi failed)
        | inr ([], e) ↦
            let (short, got, stop, vi') = R.read-some fd buffer_size w vi e in
            let none_left = drop_all o s (stop (omega arith) refl) in
            (
              w1,
              rw (e, tail_file) refl,
              rw none_left (kept ∙ ap (λ l. some (filled l)) (sym (append-nil done))),
            )
        | inr (b ∷ bs, e) ↦
            let (short, got, stop, vi') = R.read-some fd buffer_size w vi e in
            let w2 = (C.write stdout (b ∷ bs) w1).1 in
            let all = D.write_done stdout (b ∷ bs) w1 kept in
            let vo2 = (R.write-some stdout (b ∷ bs) w1 kept all).2 (omega arith) in
            let vi2 = R.write-frame stdout fd (b ∷ bs) w1 ne ∙ vi' in
            let whole = take_all (length (b ∷ bs)) (b ∷ bs) (omega arith) in
            let less : length s - (o + length (b ∷ bs)) < fuel =
              omega
                (arith, ap length got, length-take (length (b ∷ bs)) (drop o s), length-drop o s) in
            let (w', run, out) =
              tail_file-filled fuel fd w2 s (o + length (b ∷ bs)) (done ++ b ∷ bs) ne vi2
                (vo2
                  ∙ ap (λ l. some (written (filled done) l)) whole
                  ∙ ap some (written-filled done (b ∷ bs)))
                less in
            (
              w',
              rw (e, tail_file) run,
              out
                  ∙ ap (λ l. some (filled l))
                      (append_assoc done (b ∷ bs) (drop (o + length (b ∷ bs)) s)
                        ∙ ap (λ l. done ++ l) (read_split (at s o) (b ∷ bs) got)),
            )
      ]

drop_zeros : (n m : ℕ) → drop n (replicate {A = ℕ} (n + suc m) 0) ≡ 0 ∷ replicate m 0
drop_zeros zero m = ap (λ k. replicate {A = ℕ} k 0) {x = 0 + suc m} {y = suc m} (omega arith)
drop_zeros (suc n) m =
    ap (λ k. drop (suc n) (replicate {A = ℕ} k 0)) {x = suc n + suc m} {y = suc (n + suc m)}
      (omega arith)
    ∙ drop_zeros n m

-- The string that one read() of a file shorter than the buffer leaves there.
pub buffer_string-start :
    (s : List ℕ)
    → NoNul s
    → length s < buffer_size
    → buffer_string (add_read (some s) start).buf ≡ some s
buffer_string-start s clean small =
    let m : ℕ = buffer_size - length s - 1 in
    let size : buffer_size ≡ length s + suc m = omega arith in
    ap (λ k. buffer_string (s ++ drop (length s) (replicate k 0))) size
    ∙ ap (λ z. buffer_string (s ++ z)) (drop_zeros (length s) m)
    ∙ buffer_string-append s (replicate m 0) clean

-- The buffer behind a read() that fills it.
buffer_string-full :
    (s : List ℕ) (n : ℕ)
    → NoNul s
    → length s ≡ n
    → buffer_string (s ++ drop (length s) (replicate n 0)) ≡ none
buffer_string-full s n clean same =
    let past =
      drop_all (length s) (replicate {A = ℕ} n 0) (omega (arith, length-replicate {A = ℕ} n 0)) in
    ap (λ z. buffer_string (s ++ z)) past
    ∙ ap buffer_string (append-nil s)
    ∙ buffer_string-none s clean

-- The local variables behind the loop for such a file.
abbrev pub counted : Scan → List ℕ → Scan
counted s1 s = record s1 { curline = s1.curline + str_occurrences s b'\n' }

abbrev pub scanned : List ℕ → Scan
scanned s = counted (add_read (some s) start) s

pub seek_back :
    (s : List ℕ) (k : ℕ)
    → k ≤ length s
    → seek (at s (0 + length s)) (difference (0 + k) (0 + length s)) seek_end ≡ some k
seek_back s k le = elim (Bool-cases (leb (0 + length s) (0 + k))) [
  | inl all ↦ rw all (ap some (ground arith))
  | inr part ↦
      let inside : leb (suc ((0 + length s) - (0 + k) - 1)) (length s) ≡ true = ground arith in
      rw (part, inside) (ap some (ground arith))
]

pub drop-length : (p t : List ℕ) → drop (length p) (p ++ t) ≡ t
drop-length [] t = refl
drop-length (x ∷ p) t = drop-length p t

module _ (C : Calls) (R : IsRegular C) (D : IsReliable C R) (F : IsFull C R) where
  open R use {view}

  pub scan_once :
      (fuel fd : ℕ) (number_lines : ℤ) (w : C.World) (s : List ℕ)
      → view w fd ≡ some (at s 0)
      → NoNul s
      → length s < buffer_size
      → (scan C (suc fuel) fd number_lines start w ≡ ok (scanned s, (C.read fd buffer_size w).1))
        × (view (C.read fd buffer_size w).1 fd ≡ some (at s (0 + length s)))
  unfolding scan
  scan_once fuel fd number_lines w s e clean small =
      let full = F.read_full fd buffer_size w e ∙ ap some (take_all buffer_size s (omega arith)) in
      let other : is_full (some s) ≡ false = ground arith in
      let partial : is_full (C.read fd buffer_size w).0 ≡ false = ap is_full full ∙ other in
      let string : buffer_string (add_read (C.read fd buffer_size w).0 start).buf ≡ some s =
        ap (λ o. buffer_string (add_read o start).buf) full ∙ buffer_string-start s clean small in
      (
        rw (string, scan, partial)
            (ap (λ o. ok (counted (add_read o start) s, (C.read fd buffer_size w).1)) full),
        (R.read-some fd buffer_size w e full).3,
      )

  -- A read() that fills the buffer leaves no NUL behind its bytes.
  pub scan_overflows :
      (fuel fd : ℕ) (number_lines : ℤ) (w : C.World) (s : List ℕ)
      → view w fd ≡ some (at s 0)
      → NoNul s
      → buffer_size ≤ length s
      → scan C (suc fuel) fd number_lines start w ≡ fault
  unfolding scan
  scan_overflows fuel fd number_lines w s e clean large =
      let full = F.read_full fd buffer_size w e in
      let size : length (take buffer_size s) ≡ buffer_size =
        omega (arith, length-take buffer_size s) in
      let unending : buffer_string (add_read (C.read fd buffer_size w).0 start).buf ≡ none =
        ap (λ o. buffer_string (add_read o start).buf) full
        ∙ buffer_string-full (take buffer_size s) buffer_size (NoNul-take buffer_size s clean)
            size in
      rw (unending, scan) refl

  -- Behind the scan, from the offset that lseek() gives.
  pub show_from :
      (fuel fd : ℕ) (off : ℤ) (w : C.World) (s : List ℕ) (k : ℕ) (done : List ℕ)
      → fd ≢ stdout
      → view w fd ≡ some (at s (0 + length s))
      → view w stdout ≡ some (filled done)
      → seek (at s (0 + length s)) off seek_end ≡ some k
      → k ≤ length s
      → length s < buffer_size
      → length s < fuel
      → (w' : C.World) × (tail_file C fuel fd (C.lseek fd off seek_end w).1 ≡ ok w')
        × (view w' stdout ≡ some (filled (done ++ drop k s)))
  show_from fuel fd off w s k done ne vi vo sought le small enough =
      let (moved, vi') = R.lseek-some fd off seek_end w vi sought (omega arith) in
      let vo' = R.lseek-frame fd stdout off seek_end w (λ e. ne (sym e)) ∙ vo in
      tail_file-filled C R D F fuel fd (C.lseek fd off seek_end w).1 s k done ne vi' vo'
        (omega arith)
