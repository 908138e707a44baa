-- ===== src/Pstree/Once.antt =====
-- Every node is printed once by 12-system-and-process-information/pstree.c.
use linux_programming_interf.Common.{
  All-map, ℕ, zero, suc, ◌+◌, ◌≤◌, ◌<◌, ◌≡◌, ◌≢◌, refl, sym, ap, ◌∙◌, false, Option, none, some,
  inl, inr, List, [], ◌∷◌, ◌++◌, arith, length, All, Option-cases, Bool-cases, hit, count, ltb,
  ◌==◌, if◌then◌else◌,
}
use linux_programming_interf.Pstree.{PstreeNode, Tree}
use linux_programming_interf.Pstree.Preorder.{Order, each, preorder, root_order}

-- How often a position stands in an order, and 1 where a node has the parent `p`.
abbrev pub times : ℕ → Order → ℕ
times x [] = 0
times x ((i, level) ∷ order) = hit x i + times x order

abbrev pub mark : Option ℕ → ℕ → ℕ
mark none p = 0
mark (some q) p = hit q p

times-append : (x : ℕ) (a b : Order) → times x (a ++ b) ≡ times x a + times x b
times-append x [] b = omega arith
times-append x ((i, level) ∷ a) b = omega (arith, times-append x a b)

pub All-count : {P : ℕ → Type 0} (xs : List ℕ) → ((x : ℕ) → 0 < count x xs → P x) → All P xs
All-count [] f = tt
All-count (x ∷ xs) f =
    let one : hit x x ≡ 1 = ground arith in
    (f x (omega arith), All-count xs (λ y lt. f y (omega arith)))

module _ (t : Tree) (depth : ℕ → ℕ) (bound : ℕ)
    (down : (p : ℕ) → All (λ c. depth p < depth c) (t.children p))
    (small : (n : ℕ) → depth n < bound)
    (once : (x p : ℕ) → count x (t.children p) ≡ mark (t.parent x) p) where
  -- A node is below a root itself, or because its parent is.
  abbrev above : ℕ → Option ℕ → Order → ℕ
  above x none order = 0
  above x (some p) order = times p order

  times-each :
      (x : ℕ) (f : ℕ → Order) (cs : List ℕ)
      → All (λ c. times x (f c) ≡ hit x c + above x (t.parent x) (f c)) cs
      → times x (each f cs) ≡ count x cs + above x (t.parent x) (each f cs)
  times-each x f [] done = elim (Option-cases (t.parent x)) [
    | inl e ↦ rw e refl
    | inr (p, e) ↦ rw e refl
  ]
  times-each x f (c ∷ cs) (one, done) =
      let later = times-each x f cs done in
      elim (Option-cases (t.parent x)) [
        | inl e ↦
            let one' : times x (f c) ≡ hit x c + 0 = one ∙ ap (λ o. hit x c + above x o (f c)) e in
            let later' : times x (each f cs) ≡ count x cs + 0 =
              later ∙ ap (λ o. count x cs + above x o (each f cs)) e in
            rw e (omega (arith, one', later', times-append x (f c) (each f cs)))
        | inr (p, e) ↦
            let one' : times x (f c) ≡ hit x c + times p (f c) =
              one ∙ ap (λ o. hit x c + above x o (f c)) e in
            let later' : times x (each f cs) ≡ count x cs + times p (each f cs) =
              later ∙ ap (λ o. count x cs + above x o (each f cs)) e in
            rw e (
              omega (
                arith,
                one',
                later',
                times-append x (f c) (each f cs),
                times-append p (f c) (each f cs),
              ))
      ]

  times-preorder :
      (x fuel root level : ℕ)
      → bound ≤ depth root + fuel
      → times x (preorder t fuel root level)
        ≡ hit x root + above x (t.parent x) (preorder t fuel root level)
  unfolding preorder
  times-preorder x zero root level enough = absurd (let lt = small root in omega arith)
  times-preorder x (suc fuel) root level enough =
      let cs = t.children root in
      let f : ℕ → Order = λ c. preorder t fuel c (suc level) in
      let below =
        times-each x f cs
          (All-map cs (λ c d. times-preorder x fuel c (suc level) (omega arith)) (down root)) in
      let here = once x root in
      elim (Option-cases (t.parent x)) [
        | inl e ↦
            let here' : count x cs ≡ 0 = here ∙ ap (λ o. mark o root) e in
            let below' : times x (each f cs) ≡ count x cs + 0 =
              below ∙ ap (λ o. count x cs + above x o (each f cs)) e in
            rw e (omega (arith, here', below'))
        | inr (p, e) ↦
            let here' : count x cs ≡ hit p root = here ∙ ap (λ o. mark o root) e in
            let below' : times x (each f cs) ≡ count x cs + times p (each f cs) =
              below ∙ ap (λ o. count x cs + above x o (each f cs)) e in
            rw e (omega (arith, here', below'))
      ]

  -- From the position `i` on, for the nodes that are left.
  abbrev total : ℕ → ℕ → List PstreeNode → ℕ
  total x i rest = times x (root_order t bound i rest)

  distinct : (x i : ℕ) → t.parent x ≢ t.parent i → (x == i) ≡ false
  distinct x i ne = elim (Bool-cases (x == i)) [
    | inr e ↦ e
    | inl e ↦ (let same : x ≡ i = ground arith in absurd (ne (ap t.parent same)))
  ]

  total-child :
      (x p i : ℕ) (rest : List PstreeNode) → t.parent x ≡ some p → total x i rest ≡ total p i rest
  total-child x p i [] e = refl
  total-child x p i (node ∷ rest) e =
      let later = total-child x p (suc i) rest e in
      let order = root_order t bound (suc i) rest in
      elim (Option-cases (t.parent i)) [
        | inr (q, has) ↦ rw has later
        | inl top ↦
            let apart = distinct x i (λ k. (let clash = sym e ∙ k ∙ top in cc)) in
            let first = times-preorder x bound i 0 (omega arith) in
            let first' : times x (preorder t bound i 0) ≡ hit x i + times p (preorder t bound i 0) =
              first ∙ ap (λ o. hit x i + above x o (preorder t bound i 0)) e in
            let none_here : hit x i ≡ 0 = rw apart refl in
            rw top (
              omega (
                arith,
                first',
                none_here,
                later,
                times-append x (preorder t bound i 0) order,
                times-append p (preorder t bound i 0) order,
              ))
      ]

  -- A root is counted at its position.
  total-root :
      (x i : ℕ) (rest : List PstreeNode)
      → t.parent x ≡ none
      → total x i rest ≡ (if ltb x i then 0 else if ltb x (i + length rest) then 1 else 0)
  total-root x i [] e = ground arith
  total-root x i (node ∷ rest) e =
      let later = total-root x (suc i) rest e in
      let order = root_order t bound (suc i) rest in
      elim (Option-cases (t.parent i)) [
        | inr (q, has) ↦
            let apart = distinct x i (λ k. (let clash = sym e ∙ k ∙ has in cc)) in
            rw has (ground (arith, later))
        | inl top ↦
            let first = times-preorder x bound i 0 (omega arith) in
            let first' : times x (preorder t bound i 0) ≡ hit x i + 0 =
              first ∙ ap (λ o. hit x i + above x o (preorder t bound i 0)) e in
            rw top (ground (arith, first', later, times-append x (preorder t bound i 0) order))
      ]

  -- Each position of a node is counted once, and no other position.
  pub total_all :
      (nodes : List PstreeNode)
      → ((x p : ℕ) → t.parent x ≡ some p → depth p < depth x)
      → ((x p : ℕ) → t.parent x ≡ some p → (x < length nodes) × (p < length nodes))
      → (k x : ℕ) → depth x < k
      → total x 0 nodes ≡ (if ltb x (length nodes) then 1 else 0)
  total_all nodes up inside zero x lt = absurd (omega arith)
  total_all nodes up inside (suc k) x lt = elim (Option-cases (t.parent x)) [
    | inl e ↦ total-root x 0 nodes e ∙ ground arith
    | inr (p, e) ↦
        let (in_x, in_p) = inside x p e in
        let deeper = up x p e in
        total-child x p 0 nodes e ∙ total_all nodes up inside k p (omega arith) ∙ ground arith
  ]
