-- ===== src/Chmod/Modes.antt =====
-- The modes that 15-file-attributes/exercise6_chmod.c computes, bit by bit.
use Prim.Native.Nat.{min, max, bit_and, bit_or}
use linux_programming_interf.Common.{
  ℕ, zero, suc, ◌≤◌, ◌≡◌, ◌≢◌, refl, sym, ap, ◌∙◌, inl, inr, arith, ◌==◌, ==_iff, Bool-cases,
}
use linux_programming_interf.Common.Bits.{test_bit, test_bit-le, test_bit-or, test_bit-and}
use linux_programming_interf.Chmod.{file_mode, directory_mode}

pub test_bit-zero : (k : ℕ) → test_bit k 0 ≡ 0
unfolding test_bit
test_bit-zero zero = refl
test_bit-zero (suc k) = test_bit-zero k

owner_bit : (b : ℕ) → b ≤ 1 → min (max b (test_bit 6 0o540)) (test_bit 6 0o111) ≡ 1
unfolding test_bit
owner_bit b le = omega arith

-- The owner's execute bit is among those that are set first.
owner_executes : (m : ℕ) → bit_and (bit_or m 0o540) 0o111 ≢ 0
owner_executes m none =
    let one : test_bit 6 (bit_and (bit_or m 0o540) 0o111) ≡ 1 =
      test_bit-and 6 (bit_or m 0o540) 0o111
      ∙ ap (λ b. min b (test_bit 6 0o111)) (test_bit-or 6 m 0o540)
      ∙ owner_bit (test_bit 6 m) (test_bit-le 6 m) in
    absurd (let two = ap (test_bit 6) none ∙ test_bit-zero 6 in omega (arith, one, two))

-- For a file that is no directory, the bits that are set, beside those it had, are always
-- r-xr-x--x: whether somebody could execute it makes no difference, and reading by others is not
-- enabled.
pub file_mode_bits : (k m : ℕ) → test_bit k (file_mode m) ≡ max (test_bit k m) (test_bit k 0o551)
unfolding file_mode
file_mode_bits k m = elim (Bool-cases (bit_and (bit_or m 0o540) 0o111 == 0)) [
  | inl none ↦ absurd (owner_executes m ((==_iff (bit_and (bit_or m 0o540) 0o111) 0).0 none))
  | inr some ↦ rw some (
      test_bit-or k (bit_or m 0o540) 0o111
      ∙ ap (λ b. max b (test_bit k 0o111)) (test_bit-or k m 0o540)
      ∙ max_assoc (test_bit k m) (test_bit k 0o540) (test_bit k 0o111)
      ∙ ap (max (test_bit k m)) (sym (test_bit-or k 0o540 0o111)))
]
  where
    max_assoc : (a b c : ℕ) → max (max a b) c ≡ max a (max b c)
    max_assoc a b c = omega arith

pub directory_mode-le : (k m : ℕ) → test_bit k m ≤ test_bit k (directory_mode m)
unfolding directory_mode
directory_mode-le k m = omega (arith, test_bit-or k m 0o555)

pub file_mode-le : (k m : ℕ) → test_bit k m ≤ test_bit k (file_mode m)
file_mode-le k m = omega (arith, file_mode_bits k m)
