-- ===== src/Common/Bits.antt =====
-- Bitwise operations on flag words, by their bits.
use Prim.Native.Nat.{
  ℕ, zero, suc, ◌+◌, ◌-◌, ◌*◌, ◌/◌, ◌%◌, ◌^◌, ◌≤◌, ◌<◌, min, max, bit_and, bit_or, digits, bitwise,
  bit_and-bitwise, bit_or-bitwise,
}
use mathlib.Core.Path.{◌≡◌, refl, ap, ◌∙◌}
use mathlib.Core.Logic.{◌⊎◌, inl, inr}
use native.Mathlib.Nat.{pow-suc}
use native.Mathlib.Omega.{arith}

le_cases : (x n : ℕ) → x ≤ suc n → (x ≤ n) ⊎ (x ≡ suc n)
le_cases x n le = ground arith

-- The native operations recurse on the first operand's digits, with that operand as fuel. Fuel to
-- spare changes nothing.
module _ (only : ℕ → ℕ) (op : ℕ → ℕ → ℕ) where
  digits_spare : (fuel x y : ℕ) → x ≤ fuel → digits only op (suc fuel) x y ≡ digits only op fuel x y
  digits_spare zero zero y le = refl
  digits_spare zero (suc x) y le = absurd (omega arith)
  digits_spare (suc fuel) zero y le = refl
  digits_spare (suc fuel) (suc x) y le =
      ap (λ high. high * 2 + op (suc x % 2) (y % 2))
        (digits_spare fuel (suc x / 2) (y / 2) (omega arith))

  digits-bitwise : (fuel x y : ℕ) → x ≤ fuel → digits only op fuel x y ≡ bitwise only op x y
  digits-bitwise zero zero y le = refl
  digits-bitwise zero (suc x) y le = absurd (omega arith)
  digits-bitwise (suc fuel) x y le = elim (le_cases x fuel le) [
    | inl short ↦ digits_spare fuel x y short ∙ digits-bitwise fuel x y short
    | inr full ↦ rw full refl
  ]

  digits_halves :
      (x y : ℕ) → digits only op x (suc x / 2) (y / 2) ≡ bitwise only op (suc x / 2) (y / 2)
  digits_halves x y = digits-bitwise x (suc x / 2) (y / 2) (omega arith)

bit_or_halves : (x y : ℕ) → bit_or x y ≡ max (x % 2) (y % 2) + 2 * bit_or (x / 2) (y / 2)
bit_or_halves zero y = simp bit_or-bitwise (omega arith)
bit_or_halves (suc x) y = simp bit_or-bitwise (omega (arith, digits_halves (λ c. c) max x y))

bit_and_halves : (x y : ℕ) → bit_and x y ≡ min (x % 2) (y % 2) + 2 * bit_and (x / 2) (y / 2)
bit_and_halves zero y = simp bit_and-bitwise (omega arith)
bit_and_halves (suc x) y = simp bit_and-bitwise (omega (arith, digits_halves (λ _. 0) min x y))

-- The bit of value 2 ^ k, as 0 or 1, by recursion on k.
unfoldable pub test_bit : ℕ → ℕ → ℕ
test_bit zero x = x % 2
test_bit (suc k) x = test_bit k (x / 2)

-- ~x in a word of w bits.
unfoldable pub bit_not : ℕ → ℕ → ℕ
bit_not w x = 2 ^ w - 1 - x

pub test_bit-le : (k x : ℕ) → test_bit k x ≤ 1
unfolding test_bit
test_bit-le zero x = omega arith
test_bit-le (suc k) x = test_bit-le k (x / 2)

pub test_bit-or : (k a b : ℕ) → test_bit k (bit_or a b) ≡ max (test_bit k a) (test_bit k b)
unfolding test_bit
test_bit-or zero a b = omega (arith, bit_or_halves a b)
test_bit-or (suc k) a b =
    ap (test_bit k) {y = bit_or (a / 2) (b / 2)} (omega (arith, bit_or_halves a b))
    ∙ test_bit-or k (a / 2) (b / 2)

pub test_bit-and : (k a b : ℕ) → test_bit k (bit_and a b) ≡ min (test_bit k a) (test_bit k b)
unfolding test_bit
test_bit-and zero a b = omega (arith, bit_and_halves a b)
test_bit-and (suc k) a b =
    ap (test_bit k) {y = bit_and (a / 2) (b / 2)} (omega (arith, bit_and_halves a b))
    ∙ test_bit-and k (a / 2) (b / 2)

pub test_bit-not : (w k x : ℕ) → k < w → x < 2 ^ w → test_bit k (bit_not w x) ≡ 1 - test_bit k x
unfolding test_bit bit_not
test_bit-not zero k x h lt = absurd (omega arith)
test_bit-not (suc w) zero x h lt = omega (arith, pow-suc 2 w)
test_bit-not (suc w) (suc k) x h lt =
    ap (test_bit k) {y = bit_not w (x / 2)} (omega (arith, pow-suc 2 w))
    ∙ test_bit-not w k (x / 2) (omega arith) (omega (arith, pow-suc 2 w))

-- A word is determined by its bits.
pub test_bit_ext :
    (w a b : ℕ) → a < 2 ^ w → b < 2 ^ w → ((k : ℕ) → k < w → test_bit k a ≡ test_bit k b) → a ≡ b
unfolding test_bit
test_bit_ext zero a b ha hb h = omega arith
test_bit_ext (suc w) a b ha hb h =
    let half : a / 2 ≡ b / 2 =
      test_bit_ext w (a / 2) (b / 2) (omega (arith, pow-suc 2 w)) (omega (arith, pow-suc 2 w))
        (λ k lt. h (suc k) (omega arith)) in
    omega (arith, h 0 (omega arith))

pub bit_or-lt : (w a b : ℕ) → a < 2 ^ w → b < 2 ^ w → bit_or a b < 2 ^ w
bit_or-lt zero a b ha hb =
    let ea : a ≡ 0 = omega arith in let eb : b ≡ 0 = omega arith in rw (ea, eb) (omega arith)
bit_or-lt (suc w) a b ha hb =
    let half : bit_or (a / 2) (b / 2) < 2 ^ w =
      bit_or-lt w (a / 2) (b / 2) (omega (arith, pow-suc 2 w)) (omega (arith, pow-suc 2 w)) in
    omega (arith, bit_or_halves a b, pow-suc 2 w)

bit_and_none : (n a : ℕ) → a ≤ n → bit_and a 0 ≡ 0
bit_and_none zero a le = let e : a ≡ 0 = omega arith in rw e refl
bit_and_none (suc n) a le =
    let rest : bit_and (a / 2) 0 ≡ 0 = bit_and_none n (a / 2) (omega arith) in
    omega (arith, bit_and_halves a 0, rest)

pub bit_and-lt : (w a b : ℕ) → b < 2 ^ w → bit_and a b < 2 ^ w
bit_and-lt zero a b hb =
    let eb : b ≡ 0 = omega arith in
    let none : bit_and a 0 ≡ 0 = bit_and_none a a (omega arith) in rw (eb, none) (omega arith)
bit_and-lt (suc w) a b hb =
    let half : bit_and (a / 2) (b / 2) < 2 ^ w =
      bit_and-lt w (a / 2) (b / 2) (omega (arith, pow-suc 2 w)) in
    omega (arith, bit_and_halves a b, pow-suc 2 w)
