-- ===== src/Malloc/Away.antt =====
-- Blocks that do not overlap: a block is its header and the memory behind it.
use linux_programming_interf.Common.{
  ℕ, ◌+◌, ◌≤◌, ◌≡◌, ◌⊎◌, sym, inl, inr, true, List, [], ◌∷◌, ◌++◌, arith, All, All-map, Bool-cases,
  ◌==◌, ==_iff,
}
use mathlib.Core.Path.{subst}
use linux_programming_interf.Malloc.Machine.{Ptr, header_size, BlockHeader}
use linux_programming_interf.Malloc.FreeList.{has}

-- The first address behind the block.
abbrev pub end : (Ptr → BlockHeader) → Ptr → ℕ
end f x = x + header_size + (f x).block_length

abbrev pub Away : (Ptr → BlockHeader) → Ptr → Ptr → Type 0
Away f x y = (end f x ≤ y) ⊎ (end f y ≤ x)

-- No two of the blocks overlap.
abbrev pub AllAway : (Ptr → BlockHeader) → List Ptr → Type 0
AllAway f [] = Unit
AllAway f (x ∷ xs) = All (Away f x) xs × AllAway f xs

pub All-front :
    (P : Ptr → Type 0) (us vs : List Ptr) (b : Ptr) → All P (us ++ b ∷ vs) → All P (b ∷ us ++ vs)
All-front P [] vs b all = all
All-front P (u ∷ us) vs b (p, all) = let (q, rest) = All-front P us vs b all in (q, (p, rest))

pub All-back :
    (P : Ptr → Type 0) (us vs : List Ptr) (b : Ptr) → All P (b ∷ us ++ vs) → All P (us ++ b ∷ vs)
All-back P [] vs b all = all
All-back P (u ∷ us) vs b (q, (p, rest)) = (p, All-back P us vs b (q, rest))

pub All-has : (P : Ptr → Type 0) (b : Ptr) (xs : List Ptr) → has b xs ≡ true → All P xs → P b
All-has P b [] i all = absurd (cc)
All-has P b (x ∷ xs) i (p, all) = elim (Bool-cases (b == x)) [
  | inl here ↦ subst P (sym ((==_iff b x).0 here)) p
  | inr there ↦ All-has P b xs (ground arith) all
]

Away-sym : (f : Ptr → BlockHeader) (x y : Ptr) → Away f x y → Away f y x
Away-sym f x y (inl le) = inr le
Away-sym f x y (inr le) = inl le

-- The order does not matter.
pub AllAway-front :
    (f : Ptr → BlockHeader) (us vs : List Ptr) (b : Ptr)
    → AllAway f (us ++ b ∷ vs)
    → AllAway f (b ∷ us ++ vs)
AllAway-front f [] vs b away = away
AllAway-front f (u ∷ us) vs b (all, away) =
    let (of_b, rest) = AllAway-front f us vs b away in
    let (one, of_u) = All-front (Away f u) us vs b all in ((Away-sym f u b one, of_b), (of_u, rest))

pub AllAway-back :
    (f : Ptr → BlockHeader) (us vs : List Ptr) (b : Ptr)
    → AllAway f (b ∷ us ++ vs)
    → AllAway f (us ++ b ∷ vs)
AllAway-back f [] vs b away = away
AllAway-back f (u ∷ us) vs b ((one, of_b), (of_u, rest)) =
    (All-back (Away f u) us vs b (Away-sym f b u one, of_u), AllAway-back f us vs b (of_b, rest))

-- The others are away from one of the blocks.
pub AllAway-has :
    (f : Ptr → BlockHeader) (b : Ptr) (xs : List Ptr)
    → has b xs ≡ true
    → AllAway f xs
    → All (λ c. (c ≡ b) ⊎ Away f b c) xs
AllAway-has f b [] i away = tt
AllAway-has f b (x ∷ xs) i (all, away) = elim (Bool-cases (b == x)) [
  | inl here ↦
      let e : b ≡ x = (==_iff b x).0 here in
      (inl (sym e), All-map xs (λ c a. inr (subst (λ k. Away f k c) (sym e) a)) all)
  | inr there ↦
      let inside : has b xs ≡ true = ground arith in
      (inr (Away-sym f x b (All-has (Away f x) b xs inside all)), AllAway-has f b xs inside away)
]

-- Only the lengths matter.
AllAway-one :
    (f g : Ptr → BlockHeader) (x : Ptr) (xs : List Ptr)
    → (g x).block_length ≡ (f x).block_length
    → All (λ c. (g c).block_length ≡ (f c).block_length) xs
    → All (Away f x) xs
    → All (Away g x) xs
AllAway-one f g x [] e es away = tt
AllAway-one f g x (y ∷ ys) e (e', es) (inl le, away) =
    (inl (omega arith), AllAway-one f g x ys e es away)
AllAway-one f g x (y ∷ ys) e (e', es) (inr le, away) =
    (inr (omega arith), AllAway-one f g x ys e es away)

pub AllAway-frame :
    (f g : Ptr → BlockHeader) (xs : List Ptr)
    → All (λ c. (g c).block_length ≡ (f c).block_length) xs
    → AllAway f xs
    → AllAway g xs
AllAway-frame f g [] es away = tt
AllAway-frame f g (x ∷ xs) (e, es) (all, away) =
    (AllAway-one f g x xs e es all, AllAway-frame f g xs es away)

pub has_left : (c : Ptr) (xs ys : List Ptr) → has c xs ≡ true → has c (xs ++ ys) ≡ true
has_left c [] ys i = absurd (cc)
has_left c (x ∷ xs) ys i = ground (arith, has_left c xs ys)

pub has_right : (c : Ptr) (xs ys : List Ptr) → has c ys ≡ true → has c (xs ++ ys) ≡ true
has_right c [] ys i = i
has_right c (x ∷ xs) ys i = ground (arith, has_right c xs ys i)
