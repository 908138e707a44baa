-- ===== src/Copy/Partial.antt =====
-- What 13-file-io-buffering/copy.c copies when calls fail and writes are partial.
use linux_programming_interf.Common.{
  ℕ, zero, suc, ◌+◌, ◌-◌, ◌<◌, ◌≡◌, ◌≢◌, refl, sym, ap, ◌∙◌, inl, inr, some, List, [], ◌∷◌, ◌++◌,
  arith, ◌==◌, length, take, take-append-drop, drop, length-take, length-drop, Option-cases,
  Bool-cases,
}
use mathlib.Core.List.{append_assoc, append-nil, nil-sublist, sublist-append_left, Sublist}
use mathlib.Core.List.Sublist
use mathlib.Core.Path.{subst}
use linux_programming_interf.Common.Output.{text}
use linux_programming_interf.Files.{Calls, View, IsRegular}
use linux_programming_interf.Files.Written.{filled, written-filled, read_split, after, write-after}
use linux_programming_interf.Copy.{put, transfer, buf_size}
use linux_programming_interf.Copy.Laws.{put-frame}

take-Sublist : (k : ℕ) (l : List ℕ) → Sublist (take k l) l
take-Sublist k l =
    subst (Sublist (take k l)) (take-append-drop k l) (sublist-append_left (take k l) (drop k l))

after-filled : (done l : List ℕ) → after (filled done) l ≡ filled (done ++ l)
after-filled done [] = ap filled (sym (append-nil done))
after-filled done (b ∷ l) = written-filled done (b ∷ l)

module _ (C : Calls) (R : IsRegular C) where
  open R use {view}

  put-Sublist :
      (fd : ℕ) (done bs : List ℕ) (w : C.World)
      → view w fd ≡ some (filled done)
      → (t : List ℕ) × (view (put C fd bs w) fd ≡ some (filled (done ++ t))) × Sublist t bs
  unfolding put
  put-Sublist fd done bs w e =
      let w' = (C.write fd bs w).1 in
      let told = R.print-frame (text "couldn't write whole buffer" ∷ []) w' fd in
      elim (Option-cases (C.write fd bs w).0) [
        | inl failed ↦ (
          [],
          rw (failed, put)
              (told
                ∙ R.write-none fd bs w failed
                ∙ e
                ∙ ap (λ l. some (filled l)) (sym (append-nil done))),
          nil-sublist bs,
        )
        | inr (k, some_written) ↦
            let grown =
              write-after C R fd k bs w (filled done) e some_written
              ∙ ap some (after-filled done (take k bs)) in
            (
              take k bs,
              elim (Bool-cases (k == length bs)) [
                | inl all ↦ rw (some_written, put, all) grown
                | inr part ↦ rw (some_written, put, part) (told ∙ grown)
              ],
              take-Sublist k bs,
            )
      ]

  -- Whatever the calls answer, the loop ends; the output has, behind what it had, the bytes of the
  -- input from its offset on, but for some that may be missing, in their order; and the input keeps
  -- its bytes.
  pub transfer-Sublist :
      (fuel input output : ℕ) (w : C.World) (v : View) (done : List ℕ)
      → input ≢ output
      → view w input ≡ some v
      → view w output ≡ some (filled done)
      → length v.content - v.offset < fuel
      → (w' : C.World) × (t : List ℕ) × (transfer C fuel input output w ≡ some w')
        × (view w' output ≡ some (filled (done ++ t)))
        × Sublist t (drop v.offset v.content)
        × ((c : View) × (view w' input ≡ some c) × (c.content ≡ v.content))
  unfolding transfer
  transfer-Sublist zero input output w v done ne vi vo enough = absurd (omega arith)
  transfer-Sublist (suc fuel) input output w v done ne vi vo enough =
      let w1 = (C.read input buf_size w).1 in
      let vo1 = R.read-frame input buf_size output w (λ k. ne (sym k)) ∙ vo in
      let same = ap (λ l. some (filled l)) (sym (append-nil done)) in
      elim (Option-cases (C.read input buf_size w).0) [
        | inl failed ↦ (
          C.print (text "read" ∷ []) w1,
          [],
          rw (failed, transfer) refl,
          R.print-frame (text "read" ∷ []) w1 output ∙ vo1 ∙ same,
          nil-sublist (drop v.offset v.content),
          (
            v,
            R.print-frame (text "read" ∷ []) w1 input ∙ R.read-none input buf_size w failed ∙ vi,
            refl,
          ),
        )
        | inr ([], e) ↦
            let (short, got, stop, vi') = R.read-some input buf_size w vi e in
            (
              w1,
              [],
              rw (e, transfer) refl,
              vo1 ∙ same,
              nil-sublist (drop v.offset v.content),
              (record v { offset = v.offset + 0 }, vi', refl),
            )
        | inr (b ∷ bs, e) ↦
            let (short, got, stop, vi') = R.read-some input buf_size w vi e in
            let w2 = put C output (b ∷ bs) w1 in
            let v' = record v { offset = v.offset + length (b ∷ bs) } in
            let (t, vo2, first) = put-Sublist output done (b ∷ bs) w1 vo1 in
            let vi2 = put-frame C R output input (b ∷ bs) w1 ne ∙ vi' in
            let less : length v'.content - v'.offset < fuel = omega (
              arith,
              ap length got,
              length-take (length (b ∷ bs)) (drop v.offset v.content),
              length-drop v.offset v.content,
            ) in
            let (w', t', run, out, part, kept) =
              transfer-Sublist fuel input output w2 v' (done ++ t) ne vi2 vo2 less in
            (
              w',
              t ++ t',
              rw (e, transfer) run,
              out ∙ ap (λ l. some (filled l)) (append_assoc done t t'),
              subst (Sublist (t ++ t')) (read_split v (b ∷ bs) got) (Sublist.append first part),
              kept,
            )
      ]
