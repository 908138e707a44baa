-- ===== src/Pstree/Preorder.antt =====
-- The order in which print_tree() of 12-system-and-process-information/pstree.c prints the nodes.
use linux_programming_interf.Common.{
  All-map, ℕ, zero, suc, ◌+◌, ◌≤◌, ◌<◌, ◌≡◌, refl, sym, ap, ◌∙◌, Option, none, some, inl, inr, List,
  [], ◌∷◌, ◌++◌, arith, All, Option-cases,
}
use mathlib.Core.List.{append_assoc}
use linux_programming_interf.Common.Output.{Output}
use linux_programming_interf.Pstree.{
  PstreeNode, Tree, indent, line, print_each, print_tree, print_roots,
}

-- Positions with their levels.
abbrev pub Order : Type 0
Order = List (ℕ × ℕ)

abbrev pub each : (ℕ → Order) → List ℕ → Order
each f [] = []
each f (c ∷ cs) = f c ++ each f cs

module _ (t : Tree) where
  unfoldable pub preorder : ℕ → ℕ → ℕ → Order
  preorder zero root level = []
  preorder (suc fuel) root level =
      (root, level) ∷ each (λ c. preorder fuel c (suc level)) (t.children root)

  abbrev pub below_root : ℕ → ℕ → Option ℕ → Order
  below_root fuel i none = preorder fuel i 0
  below_root fuel i (some p) = []

  abbrev pub root_order : ℕ → ℕ → List PstreeNode → Order
  root_order fuel i [] = []
  root_order fuel i (node ∷ rest) = below_root fuel i (t.parent i) ++ root_order fuel (suc i) rest

module _ (nodes : List PstreeNode) (t : Tree) where
  -- The lines of the nodes in an order.
  abbrev pub listing : Order → Output
  listing [] = []
  listing ((i, level) ∷ order) = indent level ++ line nodes t i ++ listing order

  listing-append : (a b : Order) → listing (a ++ b) ≡ listing a ++ listing b
  listing-append [] b = refl
  listing-append ((i, level) ∷ a) b =
      ap (λ l. indent level ++ line nodes t i ++ l) (listing-append a b)
      ∙ sym (append_assoc (indent level ++ line nodes t i) (listing a) (listing b))

  module _ (depth : ℕ → ℕ) (bound : ℕ)
      (down : (p : ℕ) → All (λ c. depth p < depth c) (t.children p))
      (small : (n : ℕ) → depth n < bound) where
    print_each-each :
        (print : ℕ → Option Output) (f : ℕ → Order) (cs : List ℕ)
        → All (λ c. print c ≡ some (listing (f c))) cs
        → print_each nodes t print cs ≡ some (listing (each f cs))
    unfolding print_each
    print_each-each print f [] done = refl
    print_each-each print f (c ∷ cs) (one, done) =
        rw (one, print_each, print_each-each print f cs done)
          (ap some (sym (listing-append (f c) (each f cs))))

    print_tree-preorder :
        (fuel root level : ℕ)
        → bound ≤ depth root + fuel
        → print_tree nodes t fuel root level ≡ some (listing (preorder t fuel root level))
    unfolding print_tree preorder
    print_tree-preorder zero root level enough = absurd (let lt = small root in omega arith)
    print_tree-preorder (suc fuel) root level enough =
        let all =
          All-map (t.children root) (λ c d. print_tree-preorder fuel c (suc level) (omega arith))
            (down root) in
        rw
          (
            print_tree,
            print_each-each (λ c. print_tree nodes t fuel c (suc level))
                (λ c. preorder t fuel c (suc level)) (t.children root) all,
          )
          refl

    pub print_roots-root_order :
        (fuel i : ℕ) (rest : List PstreeNode)
        → bound ≤ fuel
        → print_roots nodes t fuel i rest ≡ some (listing (root_order t fuel i rest))
    unfolding print_roots
    print_roots-root_order fuel i [] enough = refl
    print_roots-root_order fuel i (node ∷ rest) enough =
        let later = print_roots-root_order fuel (suc i) rest enough in
        elim (Option-cases (t.parent i)) [
          | inr (p, e) ↦ rw (print_roots, e, later) refl
          | inl e ↦
              let first = print_tree-preorder fuel i 0 (omega arith) in
              rw (print_roots, e, first, later)
                (ap some
                  (sym (listing-append (preorder t fuel i 0) (root_order t fuel (suc i) rest))))
        ]
