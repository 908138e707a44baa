-- ===== src/Malloc/FreeList.antt =====
-- What the links of a heap stand for.
use linux_programming_interf.Common.{
  ◌≡◌, ◌≤◌, ◌+◌, ◌⊎◌, inl, inr, refl, true, false, Bool, ◌||◌, ◌==◌, List, [], ◌∷◌, All, arith,
}
use linux_programming_interf.Malloc.Machine.{Ptr, null, header_size, BlockHeader, addressable}

abbrev pub has : Ptr → List Ptr → Bool
has a [] = false
has a (x ∷ xs) = (a == x) || has a xs

-- No address stands twice.
abbrev pub IsApart : List Ptr → Type 0
IsApart [] = Unit
IsApart (x ∷ xs) = (has x xs ≡ false) × IsApart xs

-- From `p` the next pointers lead through the headers `xs` to NULL.
abbrev pub Nexts : (Ptr → BlockHeader) → Ptr → List Ptr → Type 0
Nexts f p [] = p ≡ null
Nexts f p (x ∷ xs) = (p ≡ x) × (addressable x ≡ true) × Nexts f (f x).next_free_chunk xs

-- The same, where every previous pointer leads back; that of the first header is `prev`.
abbrev pub Links : (Ptr → BlockHeader) → Ptr → Ptr → List Ptr → Type 0
Links f prev p [] = p ≡ null
Links f prev p (x ∷ xs) =
    (p ≡ x)
    × (addressable x ≡ true)
    × ((f x).prev_free_chunk ≡ prev)
    × Links f x (f x).next_free_chunk xs

-- The headers at the two addresses do not overlap.
abbrev pub Clear : Ptr → Ptr → Type 0
Clear x y = (x + header_size ≤ y) ⊎ (y + header_size ≤ x)

-- No two of the headers overlap.
abbrev pub IsSpaced : List Ptr → Type 0
IsSpaced [] = Unit
IsSpaced (x ∷ xs) = All (Clear x) xs × IsSpaced xs

-- A header at `c` is one of those in the list, or overlaps none of them.
abbrev pub Beside : Ptr → List Ptr → Type 0
Beside c = All (λ x. (c ≡ x) ⊎ Clear c x)

pub has-Clear : (x : Ptr) (ys : List Ptr) → All (Clear x) ys → has x ys ≡ false
has-Clear x [] a = refl
has-Clear x (y ∷ ys) (inl lt, a) = ground (arith, has-Clear x ys a)
has-Clear x (y ∷ ys) (inr lt, a) = ground (arith, has-Clear x ys a)

pub spaced-IsApart : (xs : List Ptr) → IsSpaced xs → IsApart xs
spaced-IsApart [] s = tt
spaced-IsApart (x ∷ xs) (a, s) = (has-Clear x xs a, spaced-IsApart xs s)
