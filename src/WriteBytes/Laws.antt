-- ===== src/WriteBytes/Laws.antt =====
-- How the loop of 13-file-io-buffering/write_bytes.c ends.
use linux_programming_interf.Common.{
  ℕ, zero, suc, ◌+◌, ◌-◌, ◌≤◌, ◌<◌, ◌≡◌, refl, ap, ◌∙◌, true, false, none, some, inl, inr, List, [],
  ◌++◌, arith, length, take, length-take, length-append, take_all, ltb, ◌==◌, lt→ltb, ltb→lt,
  Bool-cases,
}
use linux_programming_interf.Files.{Calls, View, IsRegular, IsReliable}
use linux_programming_interf.Files.Written.{after, after-after, after_append, write-after}
use linux_programming_interf.WriteBytes.{write_all, minimum}

eq_self : (n : ℕ) → (n == n) ≡ true
eq_self n = ground arith

minimum-le : (a b : ℕ) → (minimum a b ≤ a) × (minimum a b ≤ b)
minimum-le a b = ground arith

minimum_room : (a b : ℕ) → 0 < a → 0 < b → 0 < minimum a b
minimum_room a b ha hb = ground arith

module _ (C : Calls) (R : IsRegular C) (D : IsReliable C R) where
  open R use {view}

  whole :
      (fd n : ℕ) (buf : List ℕ) (w : C.World) (v : View)
      → n ≤ length buf
      → view w fd ≡ some v
      → ((C.write fd (take n buf) w).0 ≡ some n)
        × (view (C.write fd (take n buf) w).1 fd ≡ some (after v (take n buf)))
  whole fd n buf w v le e =
      let long : length (take n buf) ≡ n = omega (arith, length-take n buf) in
      let done = D.write_done fd (take n buf) w e ∙ ap some long in
      (
        done,
        write-after C R fd n (take n buf) w v e done
            ∙ ap (λ l. some (after v l)) (take_all n (take n buf) (omega arith)),
      )

  -- When every write is whole and the buffer is not empty, the loop ends, and the file gets as
  -- many bytes as are still to be written, as by one write() at its offset.
  pub write_all-after :
      (fuel : ℕ) (buf : List ℕ) (num_bytes tot fd : ℕ) (w : C.World) (v : View)
      → 0 < length buf
      → v.append ≡ false
      → view w fd ≡ some v
      → num_bytes - tot < fuel
      → (w' : C.World) × (bs : List ℕ) × (write_all C fuel buf num_bytes tot fd w ≡ some (none, w'))
        × (length bs ≡ num_bytes - tot)
        × (view w' fd ≡ some (after v bs))
  unfolding write_all
  write_all-after zero buf num_bytes tot fd w v some_room a e enough = absurd (omega arith)
  write_all-after (suc fuel) buf num_bytes tot fd w v some_room a e enough =
      elim (Bool-cases (ltb tot num_bytes)) [
        | inr ended ↦ (w, [], rw (ended, write_all) refl, ground arith, e)
        | inl more ↦
            let n = minimum (length buf) (num_bytes - tot) in
            let w1 = (C.write fd (take n buf) w).1 in
            let (small, few) = minimum-le (length buf) (num_bytes - tot) in
            let lt = ltb→lt tot num_bytes more in
            let one = minimum_room (length buf) (num_bytes - tot) some_room (omega arith) in
            let (done, e1) = whole fd n buf w v small e in
            let less : num_bytes - (tot + n) < fuel = omega arith in
            let (w', bs, run, long, e') =
              write_all-after fuel buf num_bytes (tot + n) fd w1 (after v (take n buf)) some_room
                (after_append v (take n buf) ∙ a) e1 less in
            let sum : length (take n buf ++ bs) ≡ num_bytes - tot =
              omega (arith, length-append (take n buf) bs, length-take n buf) in
            (
              w',
              take n buf ++ bs,
              rw (more, done, eq_self n, write_all) run,
              sum,
              e' ∙ ap some (after-after v (take n buf) bs a),
            )
      ]

  -- When every write is whole, with an empty buffer the loop never ends while there is a byte to
  -- write: no fuel is enough.
  pub write_all_forever :
      (fuel num_bytes tot fd : ℕ) (w : C.World) (v : View)
      → tot < num_bytes
      → view w fd ≡ some v
      → write_all C fuel [] num_bytes tot fd w ≡ none
  unfolding write_all
  write_all_forever zero num_bytes tot fd w v lt e = refl
  write_all_forever (suc fuel) num_bytes tot fd w v lt e =
      let more = lt→ltb tot num_bytes lt in
      let n = minimum 0 (num_bytes - tot) in
      let (none_now, _) = minimum-le 0 (num_bytes - tot) in
      let (done, e1) = whole fd n [] w v none_now e in
      rw (more, done, eq_self n, write_all)
        (write_all_forever fuel num_bytes (tot + n) fd (C.write fd (take n []) w).1
          (after v (take n [])) (omega arith) e1)
