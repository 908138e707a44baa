-- ===== src/Copy/Laws.antt =====
-- 13-file-io-buffering/copy.c copies the whole file.
use linux_programming_interf.Common.{
  ℕ, zero, suc, ◌+◌, ◌-◌, ◌<◌, ◌≡◌, refl, sym, ap, ◌∙◌, ◌≢◌, inl, inr, true, Option, some, List, [],
  ◌∷◌, ◌++◌, arith, ◌==◌, length, drop, drop_all, take_all, length-take, length-drop, Option-cases,
}
use mathlib.Core.List.{append_assoc, append-nil}
use linux_programming_interf.Common.Output.{text}
use linux_programming_interf.Files.{Calls, View, written, IsRegular, IsReliable}
use linux_programming_interf.Files.Written.{filled, written-filled, read_split}
use linux_programming_interf.Copy.{put, transfer, buf_size}

pub put-frame :
    (C : Calls) (R : IsRegular C) (fd g : ℕ) (bs : List ℕ) (w : C.World)
    → g ≢ fd
    → R.view (put C fd bs w) g ≡ R.view w g
unfolding put
put-frame C R fd g bs w ne =
    let w' = (C.write fd bs w).1 in
    ground (
      arith,
      R.write-frame fd g bs w ne,
      R.print-frame (text "couldn't write whole buffer" ∷ []) w' g,
    )

module _ (C : Calls) (R : IsRegular C) (D : IsReliable C R) where
  open R use {view}

  put-filled :
      (fd b : ℕ) (done bs : List ℕ) (w : C.World)
      → view w fd ≡ some (filled done)
      → view (put C fd (b ∷ bs) w) fd ≡ some (filled (done ++ b ∷ bs))
  unfolding put
  put-filled fd b done bs w v =
      let all = D.write_done fd (b ∷ bs) w v in
      let law = (R.write-some fd (b ∷ bs) w v all).2 (omega arith) in
      let whole = take_all (suc (length bs)) (b ∷ bs) (omega arith) in
      let same : (suc (length bs) == suc (length bs)) ≡ true = ground arith in
      rw (all, put, same)
        (law ∙ ap some (ap (written (filled done)) whole ∙ written-filled done (b ∷ bs)))

  -- What a call of the loop from `w` on is to give.
  abbrev Copied : ℕ → ℕ → View → List ℕ → C.World → Option C.World → Type 0
  Copied input output v done w o =
      (w' : C.World) × (o ≡ some w')
      × (view w' output ≡ some (filled (done ++ drop v.offset v.content)))
      × ((c : View) × (view w' input ≡ some c) × (c.content ≡ v.content))

  -- When no read fails and every write is whole, the loop ends, the output has, behind what it
  -- had, all bytes of the input from its offset on, and the input keeps its bytes.
  pub transfer-filled :
      (fuel input output : ℕ) (w : C.World) (v : View) (done : List ℕ)
      → input ≢ output
      → view w input ≡ some v
      → view w output ≡ some (filled done)
      → length v.content - v.offset < fuel
      → (w' : C.World) × (transfer C fuel input output w ≡ some w')
        × (view w' output ≡ some (filled (done ++ drop v.offset v.content)))
        × ((c : View) × (view w' input ≡ some c) × (c.content ≡ v.content))
  unfolding transfer
  transfer-filled zero input output w v done ne vi vo enough = absurd (omega arith)
  transfer-filled (suc fuel) input output w v done ne vi vo enough =
      elim (Option-cases (C.read input buf_size w).0) [
        | inl failed ↦ absurd (D.read_done input buf_size w vi failed)
        | inr ([], e) ↦
            let (short, got, stop, vi') = R.read-some input buf_size w vi e in
            let none_left : drop v.offset v.content ≡ [] =
              drop_all v.offset v.content (stop (omega arith) refl) in
            let vo' = R.read-frame input buf_size output w (λ k. ne (sym k)) ∙ vo in
            (
              (C.read input buf_size w).1,
              rw (e, transfer),
              rw none_left (vo' ∙ ap (λ l. some (filled l)) (sym (append-nil done))),
              (record v { offset = v.offset + 0 }, vi', refl),
            )
        | inr (b ∷ bs, e) ↦
            let (short, got, stop, vi') = R.read-some input buf_size w vi e in
            let w1 = (C.read input buf_size w).1 in
            let w2 = put C output (b ∷ bs) w1 in
            let v' = record v { offset = v.offset + length (b ∷ bs) } in
            let vo1 = R.read-frame input buf_size output w (λ k. ne (sym k)) ∙ vo in
            let vo2 = put-filled output b done bs w1 vo1 in
            let vi2 = put-frame C R output input (b ∷ bs) w1 ne ∙ vi' in
            let less : length v'.content - v'.offset < fuel = omega (
              arith,
              ap length got,
              length-take (length (b ∷ bs)) (drop v.offset v.content),
              length-drop v.offset v.content,
            ) in
            let (w', run, out, kept) =
              transfer-filled fuel input output w2 v' (done ++ b ∷ bs) ne vi2 vo2 less in
            (
              w',
              rw (e, transfer) run,
              out
                  ∙ ap (λ l. some (filled l))
                      (append_assoc done (b ∷ bs) (drop v'.offset v'.content)
                        ∙ ap (λ l. done ++ l) (read_split v (b ∷ bs) got)),
              kept,
            )
      ]
