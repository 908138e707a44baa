-- ===== src/Files/Written.antt =====
-- Views of files that are written in several calls.
use linux_programming_interf.Common.{
  ℕ, zero, suc, ◌+◌, ◌<◌, ◌^◌, ◌%◌, ◌≡◌, refl, sym, ap, ◌∙◌, false, some, List, [], ◌∷◌, ◌++◌,
  arith, length, take, drop, drop-drop, take-append-drop, length-append, lt→ltb,
}
use mathlib.Core.List.{append-nil}
use linux_programming_interf.Common.Int.{pos}
use linux_programming_interf.Files.{Calls, View, written, as_int, IsRegular}
use linux_programming_interf.Files.Spliced.{splice, splice-splice, splice_append}

-- A file that is written from its start, all of whose bytes are `bs`.
abbrev pub filled : List ℕ → View
filled bs = record { content = bs; offset = length bs; append = false }

pub written-filled : (done bs : List ℕ) → written (filled done) bs ≡ filled (done ++ bs)
written-filled done bs = rw (splice_append, length-append)

-- The view after one write at the offset; nothing happens for no bytes.
abbrev pub after : View → List ℕ → View
after v [] = v
after v (b ∷ bs) = written v (b ∷ bs)

pub after-after :
    (v : View) (a b : List ℕ) → v.append ≡ false → after (after v a) b ≡ after v (a ++ b)
after-after v [] b e = refl
after-after v (x ∷ a) [] e = ap (after v) (sym (append-nil (x ∷ a)))
after-after v (x ∷ a) (y ∷ b) e =
    let start : ℕ = v.offset in
    let one : splice (splice v.content start (x ∷ a)) (start + length (x ∷ a)) (y ∷ b)
        ≡ splice v.content start (x ∷ a ++ y ∷ b) =
      splice-splice v.content start (x ∷ a) (y ∷ b) in
    let ends : (start + length (x ∷ a)) + length (y ∷ b) ≡ start + length (x ∷ a ++ y ∷ b) =
      omega (arith, length-append (x ∷ a) (y ∷ b)) in
    rw e (λ i. some_view (one i) (ends i))
  where
    some_view : List ℕ → ℕ → View
    some_view c o = record { content = c; offset = o; append = false }

pub after_append : (v : View) (a : List ℕ) → (after v a).append ≡ v.append
after_append v [] = refl
after_append v (b ∷ bs) = refl

pub as_int_small : (n : ℕ) → n < 2 ^ 31 → as_int (some n) ≡ pos n
as_int_small n lt = let same : n % 2 ^ 32 ≡ n = omega arith in rw (same, lt→ltb n (2 ^ 31) lt) refl

-- What a read gives, and what is left behind it.
pub read_split :
    (v : View) (bs : List ℕ)
    → bs ≡ take (length bs) (drop v.offset v.content)
    → bs ++ drop (v.offset + length bs) v.content ≡ drop v.offset v.content
read_split v bs e =
    ap (λ l. bs ++ l) (sym (drop-drop (length bs) v.offset v.content))
    ∙ ap (λ l. l ++ drop (length bs) (drop v.offset v.content)) e
    ∙ take-append-drop (length bs) (drop v.offset v.content)

module _ (C : Calls) (R : IsRegular C) where
  open R use {view}

  pub write-after :
      (fd k : ℕ) (bs : List ℕ) (w : C.World) (v : View)
      → view w fd ≡ some v
      → (C.write fd bs w).0 ≡ some k
      → view (C.write fd bs w).1 fd ≡ some (after v (take k bs))
  write-after fd zero bs w v e r = (R.write-some fd bs w e r).1 refl
  write-after fd (suc k) [] w v e r = absurd (let le = (R.write-some fd [] w e r).0 in omega arith)
  write-after fd (suc k) (b ∷ bs) w v e r = (R.write-some fd (b ∷ bs) w e r).2 (omega arith)
