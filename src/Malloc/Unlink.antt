-- ===== src/Malloc/Unlink.antt =====
-- `ll_remove` takes one header out of a well-linked free list.
use linux_programming_interf.Common.{
  ◌≡◌, refl, sym, ◌≢◌, ◌⊎◌, inl, inr, true, false, List, [], ◌∷◌, ◌++◌, arith, ◌==◌, if◌then◌else◌,
}
use mathlib.Core.Path.{subst}
use linux_programming_interf.Malloc.Machine.{Ptr, null, BlockHeader, Heap, ok, addressable, write}
use linux_programming_interf.Malloc.FreeList.{has, IsApart, IsSpaced, Beside, spaced-IsApart, Links}
use linux_programming_interf.Malloc.{ll_remove}

-- The header functions after `p->next_free_chunk = n` and after `n->prev_free_chunk = p`, where
-- nothing is written through NULL.
abbrev pub link_next : (Ptr → BlockHeader) → Ptr → Ptr → Ptr → BlockHeader
link_next f p n = if p == null then f else write f p (record (f p) { next_free_chunk = n })

abbrev pub link_prev : (Ptr → BlockHeader) → Ptr → Ptr → Ptr → BlockHeader
link_prev f n p = if n == null then f else write f n (record (f n) { prev_free_chunk = p })

abbrev pub last : Ptr → List Ptr → Ptr
last b [] = b
last b (x ∷ xs) = last x xs

abbrev pub NullOrAddressable : Ptr → Type 0
NullOrAddressable p = (p ≡ null) ⊎ (addressable p ≡ true)

pub addressable-ne-null : (a : Ptr) → addressable a ≡ true → a ≢ null
addressable-ne-null a h = ground arith

module _ {K : Type 0} (h : Heap K) (a : Ptr) where
  -- The state that `ll_remove a` leaves.
  abbrev removed : Heap K
  removed =
      let p = (h.header a).prev_free_chunk in
      let n = (h.header a).next_free_chunk in
      record h {
        header = link_prev (link_next h.header p n) n p;
        free_ll_head = if p == null then n else h.free_ll_head;
      }

  ll_remove-removed :
      addressable a ≡ true
      → NullOrAddressable (h.header a).prev_free_chunk
      → NullOrAddressable (h.header a).next_free_chunk
      → (h.header a).prev_free_chunk ≢ a
      → ll_remove a h ≡ ok tt removed
  unfolding ll_remove
  ll_remove-removed here before after other = ground arith

module _ (f : Ptr → BlockHeader) where
  -- What the list says of the header between `xs` and `ys`.
  pub Links-middle :
      (b q a : Ptr) (xs ys : List Ptr)
      → Links f b q (xs ++ a ∷ ys)
      → (addressable a ≡ true)
        × ((f a).prev_free_chunk ≡ last b xs)
        × Links f a (f a).next_free_chunk ys
  Links-middle b q a [] ys l = (l.1, l.2, l.3)
  Links-middle b q a (x ∷ xs) ys l = Links-middle x _ a xs ys l.3

  pub Links-last :
      (b q a : Ptr) (xs ys : List Ptr)
      → Links f b q (xs ++ a ∷ ys)
      → addressable b ≡ true
      → addressable (last b xs) ≡ true
  Links-last b q a [] ys l e = e
  Links-last b q a (x ∷ xs) ys l e = Links-last x _ a xs ys l.3 l.1

  pub Links-first : (b q : Ptr) (ys : List Ptr) → Links f b q ys → NullOrAddressable q
  Links-first b q [] l = inl l
  Links-first b q (y ∷ ys) l = ground arith

pub has-append : (c : Ptr) (xs ys : List Ptr) → has c (xs ++ ys) ≡ false → has c xs ≡ false
has-append c [] ys h = refl
has-append c (x ∷ xs) ys h = ground (arith, has-append c xs ys)

pub has-append_right : (c : Ptr) (xs ys : List Ptr) → has c (xs ++ ys) ≡ false → has c ys ≡ false
has-append_right c [] ys h = h
has-append_right c (x ∷ xs) ys h = ground (arith, has-append_right c xs ys)

pub has-last : (b : Ptr) (x : Ptr) (xs : List Ptr) → has (last b (x ∷ xs)) (x ∷ xs) ≡ true
has-last b x [] = ground arith
has-last b x (y ∷ xs) = ground (arith, has-last x y xs)

pub ne_of_has : (c d : Ptr) (xs : List Ptr) → has c xs ≡ true → has d xs ≡ false → c ≢ d
ne_of_has c d xs i o = λ e. cc (subst (λ k. has k xs ≡ true) e i)

pub Links-frame :
    (f g : Ptr → BlockHeader) (b q : Ptr) (xs : List Ptr)
    → Links f b q xs
    → ((c : Ptr) → has c xs ≡ true → g c ≡ f c)
    → Links g b q xs
Links-frame f g b q [] l same = l
Links-frame f g b q (x ∷ xs) l same =
    let e : g x ≡ f x = same x (ground arith) in
    let rest : Links g x (f x).next_free_chunk xs =
      Links-frame f g x _ xs l.3 (λ c i. same c (ground arith)) in
    (l.0, l.1, rw e l.2, rw e rest)

module _ (f : Ptr → BlockHeader) (p n : Ptr) where
  abbrev relinked : Ptr → BlockHeader
  relinked = link_prev (link_next f p n) n p

  relinked_other : (c : Ptr) → c ≢ p → c ≢ n → relinked c ≡ f c
  relinked_other c h k = ground arith

  -- The list behind the removed header `a`.
  Links-relinked_tail :
      (a : Ptr) (ys : List Ptr)
      → Links f a n ys
      → IsApart ys
      → has p ys ≡ false
      → Links relinked p n ys
  Links-relinked_tail a [] l apart out = l
  Links-relinked_tail a (y ∷ ys) l apart out =
      let e : (relinked y).next_free_chunk ≡ (f y).next_free_chunk = ground arith in
      let rest : Links relinked y (f y).next_free_chunk ys =
        Links-frame f relinked y _ ys l.3 (λ c i.
          relinked_other c (ne_of_has c p ys i (ground arith))
            (ground (arith, ne_of_has c y ys i apart.0))) in
      (l.0, l.1, ground arith, rw e rest)

  abbrev start : List Ptr → Ptr → Ptr
  start [] q = n
  start (x ∷ xs) q = q

  -- The whole list, from any predecessor `b` of its first header.
  Links-relinked :
      (a b q : Ptr) (xs ys : List Ptr)
      → Links f b q (xs ++ a ∷ ys)
      → IsApart (xs ++ a ∷ ys)
      → last b xs ≡ p
      → has p ys ≡ false
      → (n ≡ null) ⊎ (has n ys ≡ true)
      → n ≡ (f a).next_free_chunk
      → Links relinked b (start xs q) (xs ++ ys)
  Links-relinked a b q [] ys l apart e out place en =
      rw e (Links-relinked_tail a ys (rw en l.3) apart.1 out)
  Links-relinked a b q (x ∷ []) ys l apart e out place en =
      let ne : x ≢ n = elim place [
        | inl z ↦ ground (arith, addressable-ne-null x l.1)
        | inr i ↦ λ k. ne_of_has n x ys i (ground arith) (sym k)
      ] in
      let rest = Links-relinked a x _ [] ys l.3 apart.1 e out place en in
      (l.0, l.1, ground arith, ground arith)
  Links-relinked a b q (x ∷ y ∷ xs) ys l apart e out place en =
      let ne : x ≢ n = elim place [
        | inl z ↦ ground (arith, addressable-ne-null x l.1)
        | inr i ↦ λ k.
            ne_of_has n x ys i (ground (arith, has-append_right x (y ∷ xs) (a ∷ ys) apart.0))
              (sym k)
      ] in
      let nep : x ≢ p = λ k.
        ne_of_has p x (y ∷ xs) (subst (λ k. has k (y ∷ xs) ≡ true) e (has-last x y xs))
          (has-append x (y ∷ xs) (a ∷ ys) apart.0) (sym k) in
      let same : relinked x ≡ f x = relinked_other x nep ne in
      let rest : Links relinked x (f x).next_free_chunk (y ∷ xs ++ ys) =
        Links-relinked a x _ (y ∷ xs) ys l.3 apart.1 e out place en in
      (l.0, l.1, rw same l.2, rw same rest)

pub null_out :
    (f : Ptr → BlockHeader) (b q : Ptr) (xs : List Ptr) → Links f b q xs → has null xs ≡ false
null_out f b q [] l = refl
null_out f b q (x ∷ xs) l = ground (arith, addressable-ne-null x l.1, null_out f x _ xs l.3)

pub last_out :
    (b a : Ptr) (xs ys : List Ptr)
    → IsApart (xs ++ a ∷ ys)
    → has b (xs ++ a ∷ ys) ≡ false
    → has (last b xs) (a ∷ ys) ≡ false
last_out b a [] ys apart out = out
last_out b a (x ∷ xs) ys apart out = last_out x a xs ys apart.1 apart.0

pub next_place :
    (f : Ptr → BlockHeader) (b q : Ptr) (ys : List Ptr)
    → Links f b q ys
    → (q ≡ null) ⊎ (has q ys ≡ true)
next_place f b q [] l = inl l
next_place f b q (y ∷ ys) l = inr (ground arith)

module _ {K : Type 0} (h : Heap K) (a : Ptr) where
  removed_head :
      (xs ys : List Ptr)
      → Links h.header null h.free_ll_head (xs ++ a ∷ ys)
      → (removed h a).free_ll_head
        ≡ start h.header (h.header a).prev_free_chunk (h.header a).next_free_chunk xs h.free_ll_head
  removed_head [] ys l = ground arith
  removed_head (x ∷ xs) ys l =
      let e = (Links-middle h.header null _ a (x ∷ xs) ys l).1 in
      let at = Links-last h.header x _ a xs ys l.3 l.1 in
      ground (arith, addressable-ne-null (last x xs) at)

  ll_remove-run :
      (xs ys : List Ptr)
      → Links h.header null h.free_ll_head (xs ++ a ∷ ys)
      → IsApart (xs ++ a ∷ ys)
      → ll_remove a h ≡ ok tt (removed h a)
  ll_remove-run xs ys l apart =
      let (here, e, rest) = Links-middle h.header null _ a xs ys l in
      let out = last_out null a xs ys apart (null_out h.header null _ _ l) in
      ll_remove-removed h a here (rw e (last_place xs l)) (Links-first h.header a _ ys rest)
        (ground arith)
    where
      last_place :
          (xs : List Ptr)
          → Links h.header null h.free_ll_head (xs ++ a ∷ ys)
          → NullOrAddressable (last null xs)
      last_place [] l = inl refl
      last_place (x ∷ xs) l = inr (Links-last h.header x _ a xs ys l.3 l.1)

  -- By addresses that differ: what `ll_remove` does where the headers do not overlap.
  pub ll_remove-unlinked :
      (xs ys : List Ptr)
      → Links h.header null h.free_ll_head (xs ++ a ∷ ys)
      → IsApart (xs ++ a ∷ ys)
      → (h' : Heap K) × (ll_remove a h ≡ ok tt h')
        × Links h'.header null h'.free_ll_head (xs ++ ys)
        × ((c : Ptr) → (h'.header c).block_length ≡ (h.header c).block_length)
        × (h'.kernel ≡ h.kernel)
  ll_remove-unlinked xs ys l apart =
      let (here, e, rest) = Links-middle h.header null _ a xs ys l in
      let out = last_out null a xs ys apart (null_out h.header null _ _ l) in
      let linked =
        Links-relinked h.header (h.header a).prev_free_chunk (h.header a).next_free_chunk a null
          h.free_ll_head xs ys l apart (sym e) (ground arith) (next_place h.header a _ ys rest)
          refl in
      (
        removed h a,
        ll_remove-run xs ys l apart,
        rw (removed_head xs ys l) linked,
        λ c. ground arith,
        refl,
      )

  -- In a well-linked free list whose headers do not overlap, `ll_remove` of the header between `xs`
  -- and `ys` returns, leaves a well-linked list of `xs` and `ys` behind the head pointer, keeps the
  -- length of every block whose header is in the list or overlaps none of the list, and the kernel's
  -- state.
  pub ll_remove-Links :
      (xs ys : List Ptr)
      → Links h.header null h.free_ll_head (xs ++ a ∷ ys)
      → IsSpaced (xs ++ a ∷ ys)
      → (h' : Heap K) × (ll_remove a h ≡ ok tt h')
        × Links h'.header null h'.free_ll_head (xs ++ ys)
        × ((c : Ptr)
            → Beside c (xs ++ a ∷ ys)
            → (h'.header c).block_length ≡ (h.header c).block_length)
        × (h'.kernel ≡ h.kernel)
  ll_remove-Links xs ys l spaced =
      let apart = spaced-IsApart (xs ++ a ∷ ys) spaced in
      let (h', run, linked, lengths, kernel) = ll_remove-unlinked xs ys l apart in
      (h', run, linked, λ c beside. lengths c, kernel)
