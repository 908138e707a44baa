-- ===== src/HolyFile/Laws.antt =====
-- The file that 04-file-io-universal-io-model/holy_file.c makes.
use linux_programming_interf.Common.{
  ℕ, zero, suc, ◌+◌, ◌-◌, ◌*◌, ◌<◌, ◌^◌, ◌≡◌, refl, sym, ap, ◌∙◌, true, false, some, List, [], ◌∷◌,
  ◌++◌, arith, length, length-append, length-replicate, replicate,
}
use mathlib.Core.List.{append_assoc, append-nil}
use linux_programming_interf.Common.Int.{pos}
use linux_programming_interf.Files.{Calls, View, written, as_int, seek_cur, IsRegular, IsReliable}
use linux_programming_interf.Files.Spliced.{splice, splice_end}
use linux_programming_interf.Files.Written.{filled, written-filled, as_int_small}
use linux_programming_interf.HolyFile.{pattern_byte, pattern_chunk_size, write_chunk, write_gaps}

-- The bytes of the pattern for `k` indices from `i` on.
abbrev pub pattern : ℕ → ℕ → List ℕ
pattern zero i = []
pattern (suc k) i = pattern_byte i ∷ pattern k (suc i)

length-pattern : (k i : ℕ) → length (pattern k i) ≡ k
length-pattern zero i = refl
length-pattern (suc k) i = ap suc (length-pattern k (suc i))

-- `n` times a gap and a chunk behind it.
abbrev pub gaps : ℕ → ℕ → List ℕ
gaps gap zero = []
gaps gap (suc n) = replicate gap 0 ++ (pattern pattern_chunk_size 0 ++ gaps gap n)

-- A file whose offset is `gap` bytes behind its end.
abbrev pub ahead : List ℕ → ℕ → View
ahead c gap = record { content = c; offset = length c + gap; append = false }

written-ahead :
    (c : List ℕ) (gap b : ℕ)
    → written (ahead c gap) (b ∷ []) ≡ filled ((c ++ replicate gap 0) ++ b ∷ [])
written-ahead c gap b =
    let zeros : length c + gap - length c ≡ gap = omega arith in
    let content : splice c (length c + gap) (b ∷ []) ≡ (c ++ replicate gap 0) ++ b ∷ [] =
      splice_end c (length c + gap) (b ∷ []) (omega arith)
      ∙ ap (λ n. (c ++ replicate {A = ℕ} n 0) ++ b ∷ []) zeros in
    let offset : (length c + gap) + 1 ≡ length ((c ++ replicate gap 0) ++ b ∷ []) = omega (
      arith,
      length-append (c ++ replicate gap 0) (b ∷ []),
      length-append c (replicate gap 0),
      length-replicate {A = ℕ} gap 0,
    ) in
    λ i. record { content = content i; offset = offset i; append = false }

module _ (C : Calls) (R : IsRegular C) (D : IsReliable C R) where
  open R use {view}

  write_byte :
      (fd b : ℕ) (w : C.World) (v : View)
      → view w fd ≡ some v
      → view (C.write fd (b ∷ []) w).1 fd ≡ some (written v (b ∷ []))
  write_byte fd b w v e =
      (R.write-some fd (b ∷ []) w e (D.write_done fd (b ∷ []) w e)).2 (omega arith)

  write_chunk-filled :
      (fd k i : ℕ) (w : C.World) (c : List ℕ)
      → view w fd ≡ some (filled c)
      → view (write_chunk C fd k i w) fd ≡ some (filled (c ++ pattern k i))
  unfolding write_chunk
  write_chunk-filled fd zero i w c e = e ∙ ap (λ l. some (filled l)) (sym (append-nil c))
  write_chunk-filled fd (suc k) i w c e =
      write_chunk-filled fd k (suc i) (C.write fd (pattern_byte i ∷ []) w).1
        (c ++ pattern_byte i ∷ [])
        (write_byte fd (pattern_byte i) w (filled c) e
          ∙ ap some (written-filled c (pattern_byte i ∷ [])))
      ∙ ap (λ l. some (filled l)) (append_assoc c (pattern_byte i ∷ []) (pattern k (suc i)))

  write_chunk-ahead :
      (fd k i gap : ℕ) (w : C.World) (c : List ℕ)
      → view w fd ≡ some (ahead c gap)
      → view (write_chunk C fd (suc k) i w) fd
        ≡ some (filled (c ++ (replicate gap 0 ++ pattern (suc k) i)))
  unfolding write_chunk
  write_chunk-ahead fd k i gap w c e =
      write_chunk-filled fd k (suc i) (C.write fd (pattern_byte i ∷ []) w).1
        ((c ++ replicate gap 0) ++ pattern_byte i ∷ [])
        (write_byte fd (pattern_byte i) w (ahead c gap) e
          ∙ ap some (written-ahead c gap (pattern_byte i)))
      ∙ ap (λ l. some (filled l))
          (append_assoc (c ++ replicate gap 0) (pattern_byte i ∷ []) (pattern k (suc i))
            ∙ append_assoc c (replicate gap 0) (pattern (suc k) i))

  -- One round: a gap, a chunk, and the offset moved over the next gap.
  round :
      (fd before gap : ℕ) (w : C.World) (c : List ℕ)
      → view w fd ≡ some (ahead c before)
      → (length c + before) + (pattern_chunk_size + gap) < 2 ^ 31
      → (p : ℕ) × (as_int
            (C.lseek fd (pos gap) seek_cur (write_chunk C fd pattern_chunk_size 0 w)).0
          ≡ pos p)
        × (view (C.lseek fd (pos gap) seek_cur (write_chunk C fd pattern_chunk_size 0 w)).1 fd
            ≡ some (ahead (c ++ (replicate before 0 ++ pattern pattern_chunk_size 0)) gap))
  round fd before gap w c e small =
      let c' : List ℕ = c ++ (replicate before 0 ++ pattern pattern_chunk_size 0) in
      let w' = write_chunk C fd pattern_chunk_size 0 w in
      let e' = write_chunk-ahead fd 79 0 before w c e in
      let long : length c' ≡ (length c + before) + pattern_chunk_size = omega (
        arith,
        length-append c (replicate before 0 ++ pattern pattern_chunk_size 0),
        length-append (replicate {A = ℕ} before 0) (pattern pattern_chunk_size 0),
        length-replicate {A = ℕ} before 0,
        length-pattern pattern_chunk_size 0,
      ) in
      let (result, moved) = R.lseek-some fd (pos gap) seek_cur w' e' refl (omega arith) in
      (length c' + gap, ap as_int result ∙ as_int_small (length c' + gap) (omega arith), moved)

  write_gaps-ahead :
      (fd gap n : ℕ) (w : C.World) (c : List ℕ)
      → view w fd ≡ some (ahead c gap)
      → (length c + gap) + n * (pattern_chunk_size + gap) < 2 ^ 31
      → ((write_gaps C fd (pos gap) n w).0 ≡ true)
        × (view (write_gaps C fd (pos gap) n w).1 fd ≡ some (ahead (c ++ gaps gap n) gap))
  unfolding write_gaps
  write_gaps-ahead fd gap zero w c e small =
      (refl, e ∙ ap (λ l. some (ahead l gap)) (sym (append-nil c)))
  write_gaps-ahead fd gap (suc n) w c e small =
      let chunk : List ℕ = pattern pattern_chunk_size 0 in
      let c' : List ℕ = c ++ (replicate gap 0 ++ chunk) in
      let w' = (C.lseek fd (pos gap) seek_cur (write_chunk C fd pattern_chunk_size 0 w)).1 in
      let (p, result, moved) = round fd gap gap w c e (grind arith) in
      let long : length c' ≡ (length c + gap) + pattern_chunk_size = omega (
        arith,
        length-append c (replicate gap 0 ++ chunk),
        length-append (replicate {A = ℕ} gap 0) chunk,
        length-replicate {A = ℕ} gap 0,
        length-pattern pattern_chunk_size 0,
      ) in
      let (status, whole) = write_gaps-ahead fd gap n w' c' moved (grind arith) in
      (
        rw (result, write_gaps) status,
        rw (result, write_gaps)
            (whole
              ∙ ap (λ l. some (ahead l gap))
                  (append_assoc c (replicate gap 0 ++ chunk) (gaps gap n)
                    ∙ ap (λ l. c ++ l) (append_assoc (replicate gap 0) chunk (gaps gap n)))),
      )

  -- When every write is whole and the file stays below 2 ^ 31 bytes, `n + 1` gaps on an empty file
  -- give `n + 1` chunks of the pattern with a hole of the gap's size between any two. The last gap
  -- only moves the offset behind the end.
  pub write_gaps-holes :
      (fd gap n : ℕ) (w : C.World)
      → view w fd ≡ some (ahead [] 0)
      → suc n * (pattern_chunk_size + gap) < 2 ^ 31
      → ((write_gaps C fd (pos gap) (suc n) w).0 ≡ true)
        × (view (write_gaps C fd (pos gap) (suc n) w).1 fd
            ≡ some (ahead (pattern pattern_chunk_size 0 ++ gaps gap n) gap))
  unfolding write_gaps
  write_gaps-holes fd gap n w e small =
      let chunk : List ℕ = pattern pattern_chunk_size 0 in
      let w' = (C.lseek fd (pos gap) seek_cur (write_chunk C fd pattern_chunk_size 0 w)).1 in
      let (p, result, moved) = round fd 0 gap w [] e (grind arith) in
      let long = length-pattern pattern_chunk_size 0 in
      let (status, whole) = write_gaps-ahead fd gap n w' chunk moved (grind arith) in
      (rw (result, write_gaps) status, rw (result, write_gaps) whole)
