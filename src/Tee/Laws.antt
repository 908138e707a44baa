-- ===== src/Tee/Laws.antt =====
-- What the copying loop of 04-file-io-universal-io-model/tee.c gives to its streams.
use linux_programming_interf.Common.{
  All-both, ℕ, zero, suc, ◌<◌, ◌≡◌, ◌≢◌, refl, sym, ap, ◌∙◌, List, [], ◌∷◌, ◌++◌, arith, length,
  take, drop, take-append-drop, length-drop, All, length-take, inl, inr, List-cases,
}
use mathlib.Core.List.{append-nil, append_assoc}
use linux_programming_interf.Common.Outcome.{ok}
use linux_programming_interf.Tee.{Streams, buf_size, put_each, copy}

-- The calls when none of them fails, on streams of different files: the bytes that were put in a
-- stream, and those that are left to be read from one.
pub record IsStreams (C : Streams) : Type 0 where
  pub sink : C.World → ℕ → List ℕ
  pub source : C.World → ℕ → List ℕ
  pub read_bytes : (s n : ℕ) (w : C.World) → (C.fread s n w).0 ≡ take n (source w s)
  pub read_rest : (s n : ℕ) (w : C.World) → source (C.fread s n w).1 s ≡ drop n (source w s)
  pub read_sinks : (s n g : ℕ) (w : C.World) → sink (C.fread s n w).1 g ≡ sink w g
  pub write_bytes : (s : ℕ) (bs : List ℕ) (w : C.World) → sink (C.fwrite s bs w) s ≡ sink w s ++ bs
  pub write_others :
      (s g : ℕ) (bs : List ℕ) (w : C.World) → g ≢ s → sink (C.fwrite s bs w) g ≡ sink w g
  pub write_sources :
      (s g : ℕ) (bs : List ℕ) (w : C.World) → source (C.fwrite s bs w) g ≡ source w g

abbrev pub Distinct : List ℕ → Type 0
Distinct [] = Unit
Distinct (s ∷ rest) = All (λ g. g ≢ s) rest × Distinct rest

module _ (C : Streams) (S : IsStreams C) where
  open S use {sink, source}

  -- What is put in all streams comes to the stream `g`.
  abbrev Receives : List ℕ → ℕ → Type 0
  Receives fs g = (bs : List ℕ) (w : C.World) → sink (put_each C fs bs w) g ≡ sink w g ++ bs

  put_each_others :
      (fs : List ℕ) (bs : List ℕ) (w : C.World) (g : ℕ)
      → All (λ f. f ≢ g) fs
      → sink (put_each C fs bs w) g ≡ sink w g
  unfolding put_each
  put_each_others [] bs w g apart = refl
  put_each_others (f ∷ fs) bs w g (ne, apart) =
      put_each_others fs bs (C.fwrite f bs w) g apart ∙ S.write_others f g bs w (λ e. ne (sym e))

  put_each_sources :
      (fs : List ℕ) (bs : List ℕ) (w : C.World) (g : ℕ) → source (put_each C fs bs w) g ≡ source w g
  unfolding put_each
  put_each_sources [] bs w g = refl
  put_each_sources (f ∷ fs) bs w g =
      put_each_sources fs bs (C.fwrite f bs w) g ∙ S.write_sources f g bs w

  put_each-Receives : (fs : List ℕ) → Distinct fs → All (Receives fs) fs
  unfolding put_each
  put_each-Receives [] apart = tt
  put_each-Receives (f ∷ fs) (ne, apart) = (
    λ bs w. put_each_others fs bs (C.fwrite f bs w) f ne ∙ S.write_bytes f bs w,
    All-both fs
        (λ g other later bs w.
          later bs (C.fwrite f bs w) ∙ ap (λ l. l ++ bs) (S.write_others f g bs w other))
        ne (put_each-Receives fs apart),
  )

  -- When no call on a stream fails, and the outputs are different streams, the loop ends, and
  -- standard output and each of the files get all bytes of the input, in their order, behind what
  -- they had.
  pub copy-delivers :
      (fuel not_stdin : ℕ) (files : List ℕ) (w : C.World)
      → Distinct (C.stdout ∷ files)
      → length (source w not_stdin) < fuel
      → (w' : C.World) × (copy C fuel not_stdin files w ≡ ok w')
        × All (λ g. sink w' g ≡ sink w g ++ source w not_stdin) (C.stdout ∷ files)
  unfolding copy put_each
  copy-delivers zero src files w apart enough = absurd (omega arith)
  copy-delivers (suc fuel) src files w apart enough =
      let fs : List ℕ = C.stdout ∷ files in
      let all = put_each-Receives fs apart in
      let w1 = (C.fread src buf_size w).1 in
      let rest = S.read_rest src buf_size w in
      let got = S.read_bytes src buf_size w in
      elim (List-cases (C.fread src buf_size w).0) [
        | inl none_read ↦
            let empty : source w src ≡ [] = take_none (source w src) (sym got ∙ none_read) in
            (
              w1,
              rw (none_read, copy) refl,
              All-both fs
                  (λ g r r'.
                    S.read_sinks src buf_size g w
                    ∙ sym (append-nil (sink w g))
                    ∙ ap (λ l. sink w g ++ l) (sym empty))
                  all all,
            )
        | inr (b, bs, e) ↦
            let w2 = put_each C fs (b ∷ bs) w1 in
            let left : source w2 src ≡ drop buf_size (source w src) =
              put_each_sources fs (b ∷ bs) w1 src ∙ rest in
            let some_read : 0 < length (source w src) =
              omega (arith, ap length (sym got ∙ e), length-take buf_size (source w src)) in
            let less : length (source w2 src) < fuel =
              omega (arith, ap length left, length-drop buf_size (source w src)) in
            let (w', run, given) = copy-delivers fuel src files w2 apart less in
            (
              w',
              rw (e, copy) run,
              All-both fs
                  (λ g r later.
                    later
                    ∙ ap (λ l. l ++ source w2 src)
                        (r (b ∷ bs) w1 ∙ ap (λ l. l ++ (b ∷ bs)) (S.read_sinks src buf_size g w))
                    ∙ append_assoc (sink w g) (b ∷ bs) (source w2 src)
                    ∙ ap (λ l. sink w g ++ (l ++ source w2 src)) (sym e ∙ got)
                    ∙ ap (λ l. sink w g ++ (take buf_size (source w src) ++ l)) left
                    ∙ ap (λ l. sink w g ++ l) (take-append-drop buf_size (source w src)))
                  all given,
            )
      ]
    where
      take_none : (l : List ℕ) → take buf_size l ≡ [] → l ≡ []
      take_none [] e = refl
      take_none (x ∷ l) e = absurd (omega (arith, ap length e))
