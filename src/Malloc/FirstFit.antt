-- ===== src/Malloc/FirstFit.antt =====
-- `po_malloc` on the free list as a list of blocks: the first block that is long enough is given
-- out, and a rest that has room for a header stays free.
use linux_programming_interf.Common.{
  ℕ, ◌+◌, ◌-◌, ◌≤◌, ◌<◌, ◌≡◌, refl, sym, ap, ◌∙◌, ◌⊎◌, inl, inr, false, Option, none, some, List,
  [], ◌∷◌, ◌++◌, arith, All, Bool-cases, Option-cases, ltb, leb, if◌then◌else◌,
}
use mathlib.Core.Option.{some-injective}
use linux_programming_interf.Malloc.Machine.{Ptr, header_size, BlockHeader}
use linux_programming_interf.Malloc.FreeList.{has, IsApart}
use linux_programming_interf.Malloc.Scan.{TooShort}

-- The header of a free block, and its length.
abbrev pub Block : Type 0
Block = Ptr × ℕ

abbrev pub blocks : (Ptr → BlockHeader) → List Ptr → List Block
blocks f [] = []
blocks f (x ∷ xs) = (x, (f x).block_length) ∷ blocks f xs

-- The memory that is given out, and the blocks that are free then.
abbrev pub keep : Block → Option (Ptr × List Block) → Option (Ptr × List Block)
keep b none = none
keep b (some (memory, rest)) = some (memory, b ∷ rest)

abbrev pub fit : ℕ → List Block → Option (Ptr × List Block)
fit size [] = none
fit size ((a, l) ∷ bs) =
    let later = keep (a, l) (fit size bs) in
    if leb size l
    then (if ltb (size + header_size) l
        then some (a + header_size, (a + header_size + size, l - size) ∷ bs)
        else some (a + header_size, bs))
    else later

-- Neither block begins inside of the length of the other.
abbrev pub Apart : (Ptr → BlockHeader) → Ptr → Ptr → Type 0
Apart f x y = ((x < y) × (x + (f x).block_length ≤ y)) ⊎ ((y < x) × (y + (f y).block_length ≤ x))

abbrev pub IsSeparate : (Ptr → BlockHeader) → List Ptr → Type 0
IsSeparate f [] = Unit
IsSeparate f (x ∷ xs) = All (Apart f x) xs × IsSeparate f xs

module _ (f : Ptr → BlockHeader) where
  has-Apart : (x : Ptr) (ys : List Ptr) → All (Apart f x) ys → has x ys ≡ false
  has-Apart x [] a = refl
  has-Apart x (y ∷ ys) (inl lt, a) = ground (arith, has-Apart x ys a)
  has-Apart x (y ∷ ys) (inr lt, a) = ground (arith, has-Apart x ys a)

  pub separate-IsApart : (xs : List Ptr) → IsSeparate f xs → IsApart xs
  separate-IsApart [] s = tt
  separate-IsApart (x ∷ xs) (a, s) = (has-Apart x xs a, separate-IsApart xs s)

  -- An address inside of a block is no header.
  has_inside :
      (a n : Ptr) (ys : List Ptr)
      → a < n
      → n < a + (f a).block_length
      → All (Apart f a) ys
      → has n ys ≡ false
  has_inside a n [] lt in_a s = refl
  has_inside a n (y ∷ ys) lt in_a (inl le, s) = ground (arith, has_inside a n ys lt in_a s)
  has_inside a n (y ∷ ys) lt in_a (inr le, s) = ground (arith, has_inside a n ys lt in_a s)

  pub All-middle : (P : Ptr → Type 0) (xs ys : List Ptr) (a : Ptr) → All P (xs ++ a ∷ ys) → P a
  All-middle P [] ys a (p, ps) = p
  All-middle P (x ∷ xs) ys a (p, ps) = All-middle P xs ys a ps

  pub has_new :
      (a n : Ptr) (xs ys : List Ptr)
      → a < n
      → n < a + (f a).block_length
      → IsSeparate f (xs ++ a ∷ ys)
      → has n (xs ++ a ∷ ys) ≡ false
  has_new a n [] ys lt in_a (s, rest) = ground (arith, has_inside a n ys lt in_a s)
  has_new a n (x ∷ xs) ys lt in_a (s, rest) = elim (All-middle (Apart f x) xs ys a s) [
    | inl le ↦ ground (arith, has_new a n xs ys lt in_a rest)
    | inr le ↦ ground (arith, has_new a n xs ys lt in_a rest)
  ]

  pub blocks-append : (xs ys : List Ptr) → blocks f (xs ++ ys) ≡ blocks f xs ++ blocks f ys
  blocks-append [] ys = refl
  blocks-append (x ∷ xs) ys = ap (λ l. (x, (f x).block_length) ∷ l) (blocks-append xs ys)

  -- What is left of the list where the block `a` is taken.
  abbrev pub left_of : ℕ → Ptr → List Ptr → List Block
  left_of size a ys =
      if ltb (size + header_size) (f a).block_length
      then (a + header_size + size, (f a).block_length - size) ∷ blocks f ys
      else blocks f ys

  -- Where `fit` finds a block.
  pub fit-found :
      (size : ℕ) (xs : List Ptr) (m : Ptr) (bs : List Block)
      → fit size (blocks f xs) ≡ some (m, bs)
      → (front : List Ptr) × (a : Ptr) × (ys : List Ptr) × (xs ≡ front ++ a ∷ ys)
        × TooShort f size front
        × (size ≤ (f a).block_length)
        × (m ≡ a + header_size)
        × (bs ≡ blocks f front ++ left_of size a ys)
  fit-found size [] m bs e = absurd (cc)
  fit-found size (x ∷ xs) m bs e = elim (Bool-cases (leb size (f x).block_length)) [
    | inl long ↦ elim (Bool-cases (ltb (size + header_size) (f x).block_length)) [
      | inl room ↦
          let got = some-injective _ _ (rw (long, room) at e) in
          (
            [],
            x,
            xs,
            refl,
            tt,
            ground arith,
            sym (ap (λ t. t.0) got),
            rw room (sym (ap (λ t. t.1) got)),
          )
      | inr tight ↦
          let got = some-injective _ _ (rw (long, tight) at e) in
          (
            [],
            x,
            xs,
            refl,
            tt,
            ground arith,
            sym (ap (λ t. t.0) got),
            rw tight (sym (ap (λ t. t.1) got)),
          )
    ]
    | inr short ↦ elim (Option-cases (fit size (blocks f xs))) [
      | inl nothing ↦ absurd (let clash : none ≡ some (m, bs) = rw (short, nothing) at e in cc)
      | inr ((m', bs'), found) ↦
          let got : some (m', (x, (f x).block_length) ∷ bs') ≡ some (m, bs) =
            rw (short, found) at e in
          let same = some-injective _ _ got in
          let (front, a, ys, split, too_short, fits, memory, rest) =
            fit-found size xs m' bs' found in
          (
            x ∷ front,
            a,
            ys,
            ap (λ l. x ∷ l) split,
            (ground arith, too_short),
            fits,
            sym (ap (λ t. t.0) same) ∙ memory,
            sym (ap (λ t. t.1) same) ∙ ap (λ l. (x, (f x).block_length) ∷ l) rest,
          )
    ]
  ]
