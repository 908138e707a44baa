-- ===== src/CpHoles/Whole.antt =====
-- The whole run of 04-file-io-universal-io-model/cpholes.c on two files.
use linux_programming_interf.Common.{
  ℕ, zero, suc, ◌+◌, ◌-◌, ◌^◌, ◌≤◌, ◌<◌, ◌≡◌, refl, sym, ap, ◌∙◌, ◌≢◌, inl, inr, Option, some, List,
  [], ◌∷◌, ◌++◌, arith, length, take, drop, replicate, length-append, take-append-take, drop_all,
  take_all, length-take, length-drop, length-replicate, Option-cases,
}
use mathlib.Core.List.{append_assoc, append-nil}
use linux_programming_interf.Common.Int.{pos, negsuc}
use linux_programming_interf.Files.{
  Calls, View, written, seek_set, seek_cur, seek_end, IsRegular, IsReliable,
}
use linux_programming_interf.Files.Spliced.{pad, splice, splice_append}
use linux_programming_interf.CpHoles.{
  as_off, copy_byte, copy_bytes, copy_all, finish, transfer, buf_size,
}
use linux_programming_interf.CpHoles.Laws.{at, Pending, write_one, copy_byte-Pending}

-- The source with its last byte replaced by NUL, or one NUL for an empty source.
abbrev pub last_zeroed : List ℕ → List ℕ
last_zeroed s = take (length s - 1) s ++ 0 ∷ []

module _ (C : Calls) (R : IsRegular C) (D : IsReliable C R) where
  open R use {view}

  copy_byte-frame :
      (fd g b : ℕ) (st : ℕ × C.World) → g ≢ fd → view (copy_byte C fd b st).1 g ≡ view st.1 g
  unfolding copy_byte
  copy_byte-frame fd g b (hole, w) ne =
      let w1 = (C.lseek fd (as_off hole) seek_cur w).1 in
      ground (
        arith,
        R.write-frame fd g (b ∷ []) w1 ne,
        R.write-frame fd g (b ∷ []) w ne,
        R.lseek-frame fd g (as_off hole) seek_cur w ne,
      )

  copy_bytes-frame :
      (fd g : ℕ) (bs : List ℕ) (st : ℕ × C.World)
      → g ≢ fd
      → view (copy_bytes C fd bs st).1 g ≡ view st.1 g
  unfolding copy_bytes
  copy_bytes-frame fd g [] st ne = refl
  copy_bytes-frame fd g (b ∷ bs) st ne =
      copy_bytes-frame fd g bs (copy_byte C fd b st) ne ∙ copy_byte-frame fd g b st ne

  copy_bytes-Pending :
      (fd : ℕ) (bs s : List ℕ) (st : ℕ × C.World)
      → Pending R fd s st
      → length s + length bs < 2 ^ 63
      → Pending R fd (s ++ bs) (copy_bytes C fd bs st)
  unfolding copy_bytes
  copy_bytes-Pending fd [] s st p small = rw (append-nil s) p
  copy_bytes-Pending fd (b ∷ bs) s st p small = rw (← append_assoc s (b ∷ []) bs) (
      copy_bytes-Pending fd bs (s ++ b ∷ []) _ (copy_byte-Pending C R D fd b s st p (omega arith))
        (omega (arith, length-append s (b ∷ []))))

  -- The state in which the outer loop ends.
  abbrev Copied : ℕ → ℕ → List ℕ → Option (ℕ × C.World) → Type 0
  Copied input output s o =
      (st : ℕ × C.World) × (o ≡ some st)
      × Pending R output s st
      × ((k : ℕ) × (view st.1 input ≡ some (at s k)))

  copy_all-Copied :
      (fuel input output k : ℕ) (s : List ℕ) (st : ℕ × C.World)
      → input ≢ output
      → view st.1 input ≡ some (at s k)
      → Pending R output (take k s) st
      → length s < 2 ^ 63
      → length s - k < fuel
      → Copied input output s (copy_all C fuel input output st)
  unfolding copy_all
  copy_all-Copied zero input output k s st ne vi p small enough = absurd (omega arith)
  copy_all-Copied (suc fuel) input output k s (hole, w) ne vi p small enough =
      elim (Option-cases (C.read input buf_size w).0) [
        | inl failed ↦ absurd (D.read_done input buf_size w vi failed)
        | inr ([], e) ↦
            let (short, got, stop, vi') = R.read-some input buf_size w vi e in
            let all : take k s ≡ s = take_all k s (stop (omega arith) refl) in
            let w' = (C.read input buf_size w).1 in
            (
              (hole, w'),
              rw (e, copy_all),
              record {
                target = p.target;
                shown = R.read-frame input buf_size output w (λ q. ne (sym q)) ∙ p.shown;
                whole = p.whole ∙ all;
              },
              (k + 0, vi'),
            )
        | inr (b ∷ bs, e) ↦
            let (short, got, stop, vi') = R.read-some input buf_size w vi e in
            let w1 = (C.read input buf_size w).1 in
            let k' = k + length (b ∷ bs) in
            let p1 : Pending R output (take k s) (hole, w1) = record {
              target = p.target;
              shown = R.read-frame input buf_size output w (λ q. ne (sym q)) ∙ p.shown;
              whole = p.whole;
            } in
            let grown : take k s ++ b ∷ bs ≡ take k' s =
              ap (λ l. take k s ++ l) got ∙ take-append-take k (length (b ∷ bs)) s in
            let lt = length-take k s in
            let lb = length-take (length (b ∷ bs)) (drop k s) in
            let ld = length-drop k s in
            let p2 =
              copy_bytes-Pending output (b ∷ bs) (take k s) (hole, w1) p1
                (omega (arith, ap length got)) in
            let vi2 = copy_bytes-frame output input (b ∷ bs) (hole, w1) ne ∙ vi' in
            let (st, run, pend, kept) =
              copy_all-Copied fuel input output k' s (copy_bytes C output (b ∷ bs) (hole, w1)) ne
                vi2 (rw (← grown) p2) small (omega (arith, ap length got)) in
            (st, rw (e, copy_all) run, pend, kept)
      ]

replicate-take : (k h : ℕ) → k ≤ h → replicate {A = ℕ} k 0 ≡ take k (replicate h 0)
replicate-take zero h le = refl
replicate-take (suc k) zero le = absurd (omega arith)
replicate-take (suc k) (suc h) le = ap (λ l. 0 ∷ l) (replicate-take k h (omega arith))

pad-take : (c : List ℕ) (h k : ℕ) → k ≤ length c + h → pad c k ≡ take k (c ++ replicate h 0)
pad-take [] h zero le = refl
pad-take [] h (suc k) le =
    ap (λ n. replicate {A = ℕ} n 0) {y = suc k} (omega arith)
    ∙ replicate-take (suc k) h (omega arith)
pad-take (x ∷ c) h zero le = ap (λ n. replicate {A = ℕ} n 0) {y = 0} (omega arith)
pad-take (x ∷ c) h (suc k) le =
    ap (λ n. x ∷ (take k c ++ replicate n 0)) {y = k - length c} (omega arith)
    ∙ ap (λ l. x ∷ l) (pad-take c h k (omega arith))

-- A NUL at an offset that the padded target reaches cuts it there.
splice_nul :
    (t s : List ℕ) (hole p : ℕ)
    → t ++ replicate hole 0 ≡ s
    → length s ≡ suc p
    → splice t p (0 ∷ []) ≡ take p s ++ 0 ∷ []
splice_nul t s hole p e len =
    let size : length s ≡ length t + hole = omega (
      arith,
      ap length e,
      length-append t (replicate hole 0),
      length-replicate {0} {A = ℕ} hole 0,
    ) in
    rw (pad-take t hole p (omega arith), drop_all (p + 1) t (omega arith), e)
      (append-nil (take p s ++ 0 ∷ []))

nil_of_append : (t z : List ℕ) → t ++ z ≡ [] → t ≡ []
nil_of_append [] z e = refl
nil_of_append (x ∷ t) z e = cc

module _ (C : Calls) (R : IsRegular C) (D : IsReliable C R) where
  open R use {view}

  -- A file with these bytes.
  abbrev pub Shows : C.World → ℕ → List ℕ → Type 0
  Shows w fd s = (v : View) × (view w fd ≡ some v) × (v.content ≡ s)

  finish-Shows :
      (input output k : ℕ) (s : List ℕ) (st : ℕ × C.World)
      → input ≢ output
      → view st.1 input ≡ some (at s k)
      → Pending R output s st
      → length s < 2 ^ 63
      → Shows (finish C input output st.1) output (last_zeroed s)
  unfolding finish
  finish-Shows input output k [] (hole, w) ne vi p small =
      let t = p.target in
      let (e1, vi1) = R.lseek-none input (negsuc 0) seek_end w vi refl in
      let w1 = (C.lseek input (negsuc 0) seek_end w).1 in
      let vo1 = R.lseek-frame input output (negsuc 0) seek_end w (λ q. ne (sym q)) ∙ p.shown in
      let (e2, vo2) = R.lseek-none output (negsuc 0) seek_set w1 vo1 refl in
      let w2 = (C.lseek output (negsuc 0) seek_set w1).1 in
      let out = write_one C R D output 0 w2 _ vo2 in
      let empty = nil_of_append t _ p.whole in
      (
        written (at t (length t)) (0 ∷ []),
        rw (e1, finish) out,
        splice_append t (0 ∷ []) ∙ ap (λ l. l ++ 0 ∷ []) empty,
      )
  finish-Shows input output k (x ∷ s) (hole, w) ne vi p small =
      let t = p.target in
      let q : ℕ = suc (length s) - 1 in
      let (e1, vi1) =
        R.lseek-some input (negsuc 0) seek_end w {p = q} vi (ground arith) (omega arith) in
      let w1 = (C.lseek input (negsuc 0) seek_end w).1 in
      let vo1 = R.lseek-frame input output (negsuc 0) seek_end w (λ q. ne (sym q)) ∙ p.shown in
      let (e2, vo2) =
        R.lseek-some output (pos q) seek_set w1 {p = q} vo1 (ground arith) (omega arith) in
      let w2 = (C.lseek output (pos q) seek_set w1).1 in
      let out = write_one C R D output 0 w2 _ vo2 in
      (
        written (at t q) (0 ∷ []),
        rw (e1, finish) out,
        splice_nul t (x ∷ s) hole q p.whole (omega arith),
      )

  -- When no read fails and every write is whole, the run ends, and the target, empty before, is
  -- the source with its last byte replaced by NUL (one NUL, if the source is empty).
  pub transfer-last_zeroed :
      (fuel input output : ℕ) (s : List ℕ) (w : C.World)
      → input ≢ output
      → view w input ≡ some (at s 0)
      → view w output ≡ some (at [] 0)
      → length s < 2 ^ 63
      → length s < fuel
      → (w' : C.World) × (transfer C fuel input output w ≡ some w')
        × Shows w' output (last_zeroed s)
  unfolding transfer
  transfer-last_zeroed fuel input output s w ne vi vo small enough =
      let (st, run, pend, kept) =
        copy_all-Copied C R D fuel input output 0 s (0, w) ne vi
          (record { target = []; shown = vo; whole = refl }) small (omega arith) in
      let (k, vi') = kept in
      (
        finish C input output st.1,
        rw (run, transfer),
        finish-Shows input output k s st ne vi' pend small,
      )
