-- ===== src/Benchmark/Permutes.antt =====
-- shuffle() of 14-file-systems/benchmarkwrites.c permutes.
use linux_programming_interf.Common.{
  hit, count, ℕ, zero, suc, ◌+◌, ◌-◌, ◌*◌, ◌/◌, ◌≤◌, ◌<◌, ◌≡◌, refl, ap, ◌∙◌, some, List, [], ◌∷◌,
  length, length-set, get_elem?, set, arith,
}
use native.Mathlib.Nat.{lt-mul-div-succ, div-lt_iff_lt-mul}
use linux_programming_interf.Benchmark.Shuffle.{rand_max, place, swap, shuffle_from, shuffle}

count-set :
    (x : ℕ) (xs : List ℕ) (i v : ℕ) {a : ℕ}
    → get_elem? xs i ≡ some a
    → count x (set xs i v) + hit x a ≡ count x xs + hit x v
count-set x [] i v e = absurd (ground arith)
count-set x (y ∷ ys) zero v {a} e =
    let same : y ≡ a = ground arith in omega (arith, ap (hit x) same)
count-set x (y ∷ ys) (suc i) v e = omega (arith, count-set x ys i v e)

get_elem?-set :
    (xs : List ℕ) (i j : ℕ) {a : ℕ} → get_elem? xs i ≡ some a → get_elem? (set xs j a) i ≡ some a
get_elem?-set [] i j e = e
get_elem?-set (x ∷ xs) zero zero e = refl
get_elem?-set (x ∷ xs) zero (suc j) e = e
get_elem?-set (x ∷ xs) (suc i) zero e = e
get_elem?-set (x ∷ xs) (suc i) (suc j) e = get_elem?-set xs i j e

get_elem?_within : (xs : List ℕ) (i : ℕ) → i < length xs → (a : ℕ) × (get_elem? xs i ≡ some a)
get_elem?_within [] i lt = absurd (omega arith)
get_elem?_within (x ∷ xs) zero lt = (x, refl)
get_elem?_within (x ∷ xs) (suc i) lt = get_elem?_within xs i (omega arith)

swap-count :
    (xs : List ℕ) (i j : ℕ)
    → i < length xs
    → j < length xs
    → (ys : List ℕ) × (swap i j xs ≡ some ys)
      × (length ys ≡ length xs)
      × ((x : ℕ) → count x ys ≡ count x xs)
unfolding swap
swap-count xs i j li lj =
    let (a, ea) = get_elem?_within xs i li in
    let (t, et) = get_elem?_within xs j lj in
    let kept = get_elem?-set xs i j ea in
    (
      set (set xs j a) i t,
      rw (et, ea, swap) refl,
      length-set (set xs j a) i t ∙ length-set xs j a,
      λ x. omega (arith, count-set x xs j a et, count-set x (set xs j a) i t kept),
    )

place-lt : (r i n : ℕ) → r ≤ rand_max → i < n → place r i n < n
place-lt r i n le lt =
    let left : ℕ = n - i in
    let some_left : 0 < left = omega arith in
    let step : ℕ = rand_max / left + 1 in
    let some_step : 0 < step = omega arith in
    let bound : r < left * step = omega (arith, lt-mul-div-succ rand_max some_left) in
    omega (arith, (div-lt_iff_lt-mul some_step).1 bound)

shuffle_from-count :
    (rand : ℕ → ℕ) (n k i : ℕ) (xs : List ℕ)
    → ((m : ℕ) → rand m ≤ rand_max)
    → length xs ≡ n
    → i + k ≤ n - 1
    → (ys : List ℕ) × (shuffle_from rand n k i xs ≡ some ys)
      × (length ys ≡ n)
      × ((x : ℕ) → count x ys ≡ count x xs)
unfolding shuffle_from
shuffle_from-count rand n zero i xs small long fits = (xs, refl, long, λ x. refl)
shuffle_from-count rand n (suc k) i xs small long fits =
    let inside = place-lt (rand i) i n (small i) (omega arith) in
    let (zs, swapped, same, counts) =
      swap-count xs i (place (rand i) i n) (omega arith) (omega (arith, inside)) in
    let (ys, run, long', counts') =
      shuffle_from-count rand n k (suc i) zs small (same ∙ long) (omega arith) in
    (ys, rw (swapped, shuffle_from) run, long', λ x. counts' x ∙ counts x)

-- When rand() keeps to its range, `shuffle` stays within the array, and every number occurs as often
-- after it as before it.
pub shuffle-count :
    (rand : ℕ → ℕ) (xs : List ℕ)
    → ((m : ℕ) → rand m ≤ rand_max)
    → (ys : List ℕ) × (shuffle rand xs ≡ some ys)
      × (length ys ≡ length xs)
      × ((x : ℕ) → count x ys ≡ count x xs)
unfolding shuffle
shuffle-count rand xs small =
    shuffle_from-count rand (length xs) (length xs - 1) 0 xs small refl (omega arith)
