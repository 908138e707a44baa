-- ===== src/Common/Outcome.antt =====
-- What a program does that can use memory it must not use, over loops with fuel.

-- An end of it, a use of what is out of bounds or not set, or no fuel.
pub data Run {ℓ} (A : Type ℓ) : Type ℓ where
  ok : A → Run A
  fault : Run A
  out_of_fuel : Run A
