-- ===== src/Malloc/Replace.antt =====
-- `ll_replace` puts the rest of a block that is split in its place in the free list.
use linux_programming_interf.Common.{
  ℕ, ◌≡◌, refl, sym, ◌∙◌, ◌≢◌, ◌⊎◌, inl, inr, true, false, List, [], ◌∷◌, ◌++◌, arith, ◌==◌,
  if◌then◌else◌,
}
use mathlib.Core.Path.{subst}
use linux_programming_interf.Malloc.Machine.{
  Ptr, null, BlockHeader, Heap, ok, ◌>>=◌, ◌>>◌, pure, addressable, write, set_length, set_head,
  set_next, set_prev, load,
}
use linux_programming_interf.Malloc.FreeList.{has, IsApart, Links}
use linux_programming_interf.Malloc.{ll_replace}
use linux_programming_interf.Malloc.Unlink.{
  link_next, link_prev, last, NullOrAddressable, addressable-ne-null, Links-middle, Links-last,
  Links-first, has-append_right, ne_of_has, null_out, last_out, next_place,
}
use linux_programming_interf.Malloc.Between.{
  start, between, between_self, between-length, Links-between,
}

link_next_other : (f : Ptr → BlockHeader) (p n c : Ptr) → c ≢ p → link_next f p n c ≡ f c
link_next_other f p n c ne = ground arith

link_prev_other : (f : Ptr → BlockHeader) (q n c : Ptr) → c ≢ q → link_prev f q n c ≡ f c
link_prev_other f q n c ne = ground arith

module _ {K : Type 0} where
  -- The two branches of `ll_replace`, on the pointers of the old item.
  link_before :
      (h : Heap K) (p n : Ptr)
      → NullOrAddressable p
      → (if p == null then set_head n else set_next p n) h
        ≡ ok tt (record h {
          header = link_next h.header p n;
          free_ll_head = if p == null then n else h.free_ll_head;
        })
  link_before h p n (inl z) = ground arith
  link_before h p n (inr i) = ground arith

  link_behind :
      (h : Heap K) (q n : Ptr)
      → NullOrAddressable q
      → (if q == null then pure tt else set_prev q n) h
        ≡ ok tt (record h { header = link_prev h.header q n })
  link_behind h q n (inl z) = ground arith
  link_behind h q n (inr i) = ground arith

  -- `ll_replace` for headers that are not the neighbours of the old item.
  ll_replace-run :
      (h : Heap K) (a n : Ptr)
      → addressable a ≡ true
      → addressable n ≡ true
      → NullOrAddressable (h.header a).prev_free_chunk
      → NullOrAddressable (h.header a).next_free_chunk
      → a ≢ n
      → a ≢ (h.header a).prev_free_chunk
      → a ≢ (h.header a).next_free_chunk
      → let p = (h.header a).prev_free_chunk in
        let q = (h.header a).next_free_chunk in
        let f3 = link_prev (link_next h.header p n) q n in
        let f4 = write f3 n (record (f3 n) { prev_free_chunk = p }) in
        ll_replace a n h
        ≡ ok tt (record h {
          header = write f4 n (record (f4 n) { next_free_chunk = q });
          free_ll_head = if p == null then n else h.free_ll_head;
        })
  unfolding ll_replace
  ll_replace-run h a n here there before after ne np nq =
      let p = (h.header a).prev_free_chunk in
      let q = (h.header a).next_free_chunk in
      let f2 = link_next h.header p n in
      let f3 = link_prev f2 q n in
      let f4 = write f3 n (record (f3 n) { prev_free_chunk = p }) in
      let e2 : f2 a ≡ h.header a = link_next_other h.header p n a np in
      let e3 : f3 a ≡ h.header a = link_prev_other f2 q n a nq ∙ e2 in
      let e4 : f4 a ≡ h.header a = ground (arith, e3) in
      let h1 = record h { header = f2; free_ll_head = if p == null then n else h.free_ll_head } in
      let behind : (if (f2 a).next_free_chunk == null
              then pure tt
              else set_prev (f2 a).next_free_chunk n)
            h1
          ≡ ok tt (record h1 { header = f3 }) =
        rw e2 (link_behind h1 q n after) in
      let last_two : (do
        c ← load a
        set_prev n c.prev_free_chunk
        d ← load a
        set_next n d.next_free_chunk)
            (record h1 { header = f3 })
          ≡ ok tt (record h1 { header = write f4 n (record (f4 n) { next_free_chunk = q }) }) =
        rw (here, e3, there, here, e4, there) refl in
      rw (here, ll_replace, link_before h p n before, here, behind) last_two

IsApart-right :
    (a : Ptr) (xs ys : List Ptr) → IsApart (xs ++ a ∷ ys) → (has a ys ≡ false) × IsApart ys
IsApart-right a [] ys apart = apart
IsApart-right a (x ∷ xs) ys apart = IsApart-right a xs ys apart.1

-- The predecessor of `a`.
last_cases :
    (f : Ptr → BlockHeader) (b q a : Ptr) (xs ys : List Ptr)
    → Links f b q (xs ++ a ∷ ys)
    → (last b xs ≡ b) ⊎ ((addressable (last b xs) ≡ true) × (has (last b xs) (xs ++ a ∷ ys) ≡ true))
last_cases f b q a [] ys l = inl refl
last_cases f b q a (x ∷ xs) ys l = elim (last_cases f x _ a xs ys l.3) [
  | inl first ↦ inr (rw first l.1, rw first (ground arith))
  | inr (at, inside) ↦ inr (at, ground (arith, inside))
]

module _ {K : Type 0} (h : Heap K) (a n : Ptr) (len : ℕ) where
  replaced_head :
      (xs ys : List Ptr)
      → Links h.header null h.free_ll_head (xs ++ a ∷ ys)
      → let p = (h.header a).prev_free_chunk in
        (if p == null then n else h.free_ll_head)
        ≡ start h.header p (h.header a).next_free_chunk n len xs h.free_ll_head
  replaced_head [] ys l = ground arith
  replaced_head (x ∷ xs) ys l =
      let e = (Links-middle h.header null _ a (x ∷ xs) ys l).1 in
      let at = Links-last h.header x _ a xs ys l.3 l.1 in
      ground (arith, addressable-ne-null (last x xs) at)

  -- In a well-linked free list without repetition, `n` gets `len` bytes and takes the place of `a`.
  pub split-Links :
      (xs ys : List Ptr)
      → Links h.header null h.free_ll_head (xs ++ a ∷ ys)
      → IsApart (xs ++ a ∷ ys)
      → has n (xs ++ a ∷ ys) ≡ false
      → addressable n ≡ true
      → (h' : Heap K) × ((set_length n len >> ll_replace a n) h ≡ ok tt h')
        × Links h'.header null h'.free_ll_head (xs ++ n ∷ ys)
        × ((h'.header n).block_length ≡ len)
        × ((c : Ptr) → c ≢ n → (h'.header c).block_length ≡ (h.header c).block_length)
        × (h'.kernel ≡ h.kernel)
  split-Links xs ys l apart new at =
      let p = (h.header a).prev_free_chunk in
      let q = (h.header a).next_free_chunk in
      let (here, e, rest) = Links-middle h.header null _ a xs ys l in
      let out = last_out null a xs ys apart (null_out h.header null _ _ l) in
      let out_p : has p (a ∷ ys) ≡ false = subst (λ k. has k (a ∷ ys) ≡ false) (sym e) out in
      let place = next_place h.header a _ ys rest in
      let new_ys = has-append_right n xs (a ∷ ys) new in
      let an : a ≢ n = ground arith in
      let ap : a ≢ p = ground arith in
      let aq : a ≢ q = elim place [
        | inl z ↦ ground (arith, addressable-ne-null a here)
        | inr i ↦ λ k. ne_of_has q a ys i (IsApart-right a xs ys apart).0 (sym k)
      ] in
      let before : NullOrAddressable p = elim (last_cases h.header null _ a xs ys l) [
        | inl first ↦ inl (e ∙ first)
        | inr (addr, inside) ↦ inr (subst (λ k. addressable k ≡ true) (sym e) addr)
      ] in
      let np : n ≢ p = elim (last_cases h.header null _ a xs ys l) [
        | inl first ↦ λ k. addressable-ne-null n at (k ∙ e ∙ first)
        | inr (addr, inside) ↦ λ k.
            ne_of_has p n (xs ++ a ∷ ys) (subst (λ k. has k (xs ++ a ∷ ys) ≡ true) (sym e) inside)
              new (sym k)
      ] in
      let after = Links-first h.header a _ ys rest in
      let nq : n ≢ q = elim place [
        | inl z ↦ λ k. addressable-ne-null n at (k ∙ z)
        | inr i ↦ λ k. ne_of_has q n ys i (ground arith) (sym k)
      ] in
      let f1 = write h.header n (record (h.header n) { block_length = len }) in
      let h1 = record h { header = f1 } in
      let same : f1 a ≡ h.header a = ground arith in
      let run = rw same at (
        ll_replace-run h1 a n here at (rw same before) (rw same after) an (rw same ap)
          (rw same aq)) in
      let g = between h.header p q n len in
      let (prev, next, long) = between_self h.header p q n len np nq in
      let linked =
        Links-between h.header p q n len a null h.free_ll_head xs ys l apart new at (sym e)
          (ground arith) np place refl in
      (
        record h { header = g; free_ll_head = if p == null then n else h.free_ll_head },
        rw at run,
        rw (replaced_head xs ys l) linked,
        long,
        between-length h.header p q n len,
        refl,
      )
