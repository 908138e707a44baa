-- ===== src/CpHoles/Laws.antt =====
-- What the target of 04-file-io-universal-io-model/cpholes.c holds in the end.
use linux_programming_interf.Common.{
  ℕ, zero, suc, ◌+◌, ◌-◌, ◌%◌, ◌^◌, ◌<◌, ◌≡◌, refl, sym, ap, ◌∙◌, inl, inr, true, false, some, List,
  [], ◌∷◌, ◌++◌, arith, ◌==◌, ltb, length, replicate, length-append, length-replicate, Bool-cases,
  ==_iff, lt→ltb,
}
use mathlib.Core.Path.{subst}
use mathlib.Core.List.{append_assoc, append-nil}
use linux_programming_interf.Common.Int.{pos}
use linux_programming_interf.Files.{Calls, View, written, seek_cur, IsRegular, IsReliable}
use linux_programming_interf.Files.Spliced.{splice, splice_end}
use linux_programming_interf.CpHoles.{copy_byte}

-- A view that is not in append mode.
abbrev pub at : List ℕ → ℕ → View
at c k = record { content = c; offset = k; append = false }

-- The target stands at its end, and with the pending hole it is the bytes `s`.
pub record Pending {C : Calls} (R : IsRegular C) (fd : ℕ) (s : List ℕ) (st : ℕ × C.World)
    : Type 0 where
  pub target : List ℕ
  pub shown : R.view st.1 fd ≡ some (at target (length target))
  pub whole : target ++ replicate st.0 0 ≡ s

replicate_snoc : (n : ℕ) → replicate {A = ℕ} n 0 ++ 0 ∷ [] ≡ replicate (suc n) 0
replicate_snoc zero = refl
replicate_snoc (suc n) = ap (λ l. 0 ∷ l) (replicate_snoc n)

module _ (C : Calls) (R : IsRegular C) (D : IsReliable C R) where
  open R use {view}

  pub write_one :
      (fd b : ℕ) (w : C.World) (v : View)
      → view w fd ≡ some v
      → view (C.write fd (b ∷ []) w).1 fd ≡ some (written v (b ∷ []))
  write_one fd b w v is =
      (R.write-some fd (b ∷ []) w is (D.write_done fd (b ∷ []) w is)).2 (omega arith)

  pub Pending-length :
      {fd : ℕ} {s : List ℕ} (st : ℕ × C.World)
      → (p : Pending R fd s st) → length s ≡ length p.target + st.0
  Pending-length st p = omega (
    arith,
    ap length p.whole,
    length-append p.target (replicate st.0 0),
    length-replicate {0} {A = ℕ} st.0 0,
  )

  -- With no pending hole the target is all of `s`.
  Pending-done :
      (fd : ℕ) (s : List ℕ) (w : C.World)
      → view w fd ≡ some (at s (length s))
      → Pending R fd s (0, w)
  Pending-done fd s w is = record { target = s; shown = is; whole = append-nil s }

  -- A byte written behind the pending hole.
  written_behind :
      (t s : List ℕ) (hole b : ℕ)
      → t ++ replicate hole 0 ≡ s
      → written (at t (length t + hole)) (b ∷ []) ≡ at (s ++ b ∷ []) (length (s ++ b ∷ []))
  written_behind t s hole b e =
      let k = length t + hole in
      let gap : k - length t ≡ hole = omega arith in
      let content : splice t k (b ∷ []) ≡ s ++ b ∷ [] =
        splice_end t k (b ∷ []) (omega arith)
        ∙ ap (λ n. (t ++ replicate n 0) ++ b ∷ []) gap
        ∙ ap (λ l. l ++ b ∷ []) e in
      let offset : k + 1 ≡ length (s ++ b ∷ []) = omega (
        arith,
        ap length e,
        length-append t (replicate hole 0),
        length-replicate {0} {A = ℕ} hole 0,
        length-append s (b ∷ []),
      ) in
      λ i. at (content i) (offset i)

  pub copy_byte-Pending :
      (fd b : ℕ) (s : List ℕ) (st : ℕ × C.World)
      → Pending R fd s st
      → length s < 2 ^ 63 - 1
      → Pending R fd (s ++ b ∷ []) (copy_byte C fd b st)
  unfolding copy_byte
  copy_byte-Pending fd b s (hole, w) p small = elim (Bool-cases (b == 0)) [
    | inl nul ↦
        let zero' : b ≡ 0 = (==_iff b 0).0 nul in
        let more : (hole + 1) % 2 ^ 64 ≡ suc hole = omega (arith, Pending-length (hole, w) p) in
        rw (nul, more)
          (record {
            target = t;
            shown = p.shown;
            whole =
                ap (λ l. t ++ l) (sym (replicate_snoc hole))
                ∙ sym (append_assoc t (replicate hole 0) (0 ∷ []))
                ∙ ap (λ l. l ++ 0 ∷ []) p.whole
                ∙ ap (λ c. s ++ c ∷ []) (sym zero');
          })
    | inr other ↦ elim (Bool-cases (ltb 0 hole)) [
      | inl gap ↦
          let fits : ltb hole (2 ^ 63) ≡ true =
            lt→ltb _ _ (omega (arith, Pending-length (hole, w) p)) in
          let k = length t + hole in
          let small' : k < 2 ^ 63 = omega (arith, Pending-length (hole, w) p) in
          let w1 = (C.lseek fd (pos hole) seek_cur w).1 in
          let moved : view w1 fd ≡ some (at t k) =
            (R.lseek-some fd (pos hole) seek_cur w p.shown refl small').1 in
          rw (other, gap, fits)
            (Pending-done fd (s ++ b ∷ []) (C.write fd (b ∷ []) w1).1
              (write_one fd b w1 (at t k) moved ∙ ap some (written_behind t s hole b p.whole)))
      | inr none_pending ↦
          let zero' : hole ≡ 0 = ground arith in
          let same : length t ≡ length t + hole = omega arith in
          let shown' : view w fd ≡ some (at t (length t + hole)) =
            p.shown ∙ ap (λ k. some (at t k)) same in
          let done =
            Pending-done fd (s ++ b ∷ []) (C.write fd (b ∷ []) w).1
              (write_one fd b w _ shown' ∙ ap some (written_behind t s hole b p.whole)) in
          rw (other, none_pending)
            (subst (λ h. Pending R fd (s ++ b ∷ []) (h, (C.write fd (b ∷ []) w).1)) (sym zero')
              done)
    ]
  ]
    where
      t : List ℕ
      t = p.target
