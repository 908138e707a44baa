-- ===== src/FreeSbrk/Laws.antt =====
-- Which blocks 07-memory-allocation/free_and_sbrk.c frees.
use linux_programming_interf.Common.{
  ℕ, zero, suc, ◌+◌, ◌-◌, ◌*◌, ◌^◌, ◌≤◌, ◌<◌, ◌≡◌, refl, sym, ap, ◌∙◌, true, false, Option, none,
  some, inl, inr, List, [], ◌∷◌, arith, length, ltb, Bool-cases, if◌then◌else◌,
}
use linux_programming_interf.Common.Int.{pos}
use linux_programming_interf.Common.Outcome.{ok}
use linux_programming_interf.FreeSbrk.{Allocator, element, sum, free_from}

element_inside : (ptr : List ℕ) (n : ℕ) → n < length ptr → (p : ℕ) × (element ptr n ≡ some p)
unfolding element
element_inside [] n lt = absurd (omega arith)
element_inside (p ∷ ptr) zero lt = (p, refl)
element_inside (q ∷ ptr) (suc n) lt = element_inside ptr n (omega arith)

-- The element that the round `k` is to free, if there is such a round.
abbrev pub due : List ℕ → ℕ → ℕ → ℕ → ℕ → Option ℕ
unfolding element
due ptr n m step k = if ltb (n + k * step) m then element ptr (n + k * step) else none

module _ (A : Allocator) where
  open A use {World, free}

  abbrev pub free_all : List ℕ → World → World
  free_all [] w = w
  free_all (p ∷ ps) w = free_all ps (free p w)

  -- With a step of at least 1, from an index that is not below 0 and up to no more than the blocks
  -- that there are, where the step does not overflow an int, the second loop ends and stays within the array, and it frees the blocks at the
  -- start, one step behind it, two steps behind it and so on, as far as these are below the end, in
  -- this order, and no others.
  pub free_from-due :
      (fuel n m s : ℕ) (ptr : List ℕ) (w : World)
      → m ≤ length ptr
      → m + suc s ≤ 2 ^ 31
      → m - n < fuel
      → (freed : List ℕ) × (free_from A fuel (pos n) (pos m) (pos (suc s)) ptr w
          ≡ ok (free_all freed w))
        × ((k : ℕ) → element freed k ≡ due ptr n m (suc s) k)
  unfolding free_from element
  free_from-due zero n m s ptr w within small enough = absurd (omega arith)
  free_from-due (suc fuel) n m s ptr w within small enough = elim (Bool-cases (ltb n m)) [
    | inr over ↦ (
      [],
      rw (over, free_from) refl,
      λ k. (let past : ltb (n + k * suc s) m ≡ false = ground arith in rw past refl),
    )
    | inl more ↦
        let (p, there) = element_inside ptr n (ground arith) in
        let (freed, run, later) =
          free_from-due fuel (n + suc s) m s ptr (free p w) within small (ground arith) in
        let next : sum (pos n) (pos (suc s)) ≡ some (pos (n + suc s)) = ground arith in
        (p ∷ freed, rw (more, there, next, free_from) run, λ k. first p freed k there more later)
  ]
    where
      first :
          (p : ℕ) (freed : List ℕ) (k : ℕ)
          → element ptr n ≡ some p
          → ltb n m ≡ true
          → ((k : ℕ) → element freed k ≡ due ptr (n + suc s) m (suc s) k)
          → element (p ∷ freed) k ≡ due ptr n m (suc s) k
      first p freed zero there more later =
          let here : (if ltb n m then element ptr n else none) ≡ some p = rw more there in
          sym here
          ∙ ap (λ i. if ltb i m then element ptr i else none) {y = n + 0 * suc s} (grind arith)
      first p freed (suc k) there more later =
          later k ∙ ap (λ i. if ltb i m then element ptr i else none) (grind arith)
