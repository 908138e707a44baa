-- ===== src/Malloc/Between.antt =====
-- The headers when the rest of a split block takes the place of the block in the free list.
use linux_programming_interf.Common.{
  ℕ, ◌≡◌, refl, sym, ◌∙◌, ◌≢◌, ◌⊎◌, inl, inr, true, false, List, [], ◌∷◌, ◌++◌, arith,
}
use mathlib.Core.Path.{subst}
use linux_programming_interf.Malloc.Machine.{Ptr, null, BlockHeader, addressable, write}
use linux_programming_interf.Malloc.FreeList.{has, IsApart, Links}
use linux_programming_interf.Malloc.Unlink.{
  link_next, link_prev, last, addressable-ne-null, has-append, has-append_right, has-last,
  ne_of_has, Links-frame,
}

module _ (f : Ptr → BlockHeader) (p q n : Ptr) (len : ℕ) where
  -- The header function behind the writes: `n`, with `len` bytes, comes between `p` and `q`.
  abbrev pub between : Ptr → BlockHeader
  between =
      let f1 = write f n (record (f n) { block_length = len }) in
      let f3 = link_prev (link_next f1 p n) q n in
      let f4 = write f3 n (record (f3 n) { prev_free_chunk = p }) in
      write f4 n (record (f4 n) { next_free_chunk = q })

  pub between_other : (c : Ptr) → c ≢ p → c ≢ q → c ≢ n → between c ≡ f c
  between_other c h k m = ground arith

  pub between_self :
      n ≢ p
      → n ≢ q
      → ((between n).prev_free_chunk ≡ p)
        × ((between n).next_free_chunk ≡ q)
        × ((between n).block_length ≡ len)
  between_self h k = ground arith

  pub between-length : (c : Ptr) → c ≢ n → (between c).block_length ≡ (f c).block_length
  between-length c h = ground arith

  -- The list behind the block.
  Links-between_tail :
      (a : Ptr) (ys : List Ptr)
      → Links f a q ys
      → IsApart ys
      → has p ys ≡ false
      → has n ys ≡ false
      → Links between n q ys
  Links-between_tail a [] l apart out new = l
  Links-between_tail a (y ∷ ys) l apart out new =
      let e : (between y).next_free_chunk ≡ (f y).next_free_chunk = ground arith in
      let rest : Links between y (f y).next_free_chunk ys = Links-frame f between y _ ys l.3 (λ c i.
        between_other c (ne_of_has c p ys i (ground arith))
          (ground (arith, ne_of_has c y ys i apart.0)) (ne_of_has c n ys i (ground arith))) in
      (l.0, l.1, ground arith, rw e rest)

  abbrev pub start : List Ptr → Ptr → Ptr
  start [] b = n
  start (x ∷ xs) b = b

  -- The whole list, from any predecessor `b` of its first header.
  pub Links-between :
      (a b r : Ptr) (xs ys : List Ptr)
      → Links f b r (xs ++ a ∷ ys)
      → IsApart (xs ++ a ∷ ys)
      → has n (xs ++ a ∷ ys) ≡ false
      → addressable n ≡ true
      → last b xs ≡ p
      → has p ys ≡ false
      → n ≢ p
      → (q ≡ null) ⊎ (has q ys ≡ true)
      → q ≡ (f a).next_free_chunk
      → Links between b (start xs r) (xs ++ n ∷ ys)
  Links-between a b r [] ys l apart new at e out np place eq =
      let nq : n ≢ q = elim place [
        | inl z ↦ ground (arith, addressable-ne-null n at)
        | inr i ↦ λ k. ne_of_has q n ys i (ground arith) (sym k)
      ] in
      let (prev, next, long) = between_self np nq in
      (
        refl,
        at,
        prev ∙ sym e,
        rw next (Links-between_tail a ys (rw eq l.3) apart.1 out (ground arith)),
      )
  Links-between a b r (x ∷ []) ys l apart new at e out np place eq =
      let ne : x ≢ q = elim place [
        | inl z ↦ ground (arith, addressable-ne-null x l.1)
        | inr i ↦ λ k. ne_of_has q x ys i (ground arith) (sym k)
      ] in
      let some_p : p ≢ null = λ k. addressable-ne-null x l.1 (e ∙ k) in
      let xn : x ≢ n = ground arith in
      let next : (between x).next_free_chunk ≡ n = ground arith in
      let prev : (between x).prev_free_chunk ≡ (f x).prev_free_chunk = ground arith in
      let rest = Links-between a x _ [] ys l.3 apart.1 (ground arith) at e out np place eq in
      (l.0, l.1, prev ∙ l.2, rw next rest)
  Links-between a b r (x ∷ y ∷ xs) ys l apart new at e out np place eq =
      let ne : x ≢ q = elim place [
        | inl z ↦ ground (arith, addressable-ne-null x l.1)
        | inr i ↦ λ k.
            ne_of_has q x ys i (ground (arith, has-append_right x (y ∷ xs) (a ∷ ys) apart.0))
              (sym k)
      ] in
      let nep : x ≢ p = λ k.
        ne_of_has p x (y ∷ xs) (subst (λ k. has k (y ∷ xs) ≡ true) e (has-last x y xs))
          (has-append x (y ∷ xs) (a ∷ ys) apart.0) (sym k) in
      let same : between x ≡ f x = between_other x nep ne (ground arith) in
      let rest : Links between x (f x).next_free_chunk (y ∷ xs ++ n ∷ ys) =
        Links-between a x _ (y ∷ xs) ys l.3 apart.1 (ground arith) at e out np place eq in
      (l.0, l.1, rw same l.2, rw same rest)
