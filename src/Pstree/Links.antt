-- ===== src/Pstree/Links.antt =====
-- The links that make_tree() of 12-system-and-process-information/pstree.c sets.
use linux_programming_interf.Common.{
  ℕ, zero, suc, ◌+◌, ◌≤◌, ◌<◌, ◌≡◌, refl, sym, ap, ◌∙◌, Bool, true, false, Option, none, some, inl,
  inr, List, [], ◌∷◌, ◌++◌, arith, length, length-append, ltb, lt→ltb, ◌==◌, Bool-cases,
  Option-cases, if◌then◌else◌,
}
use mathlib.Core.List.{append_assoc, append-nil}
use linux_programming_interf.Pstree.{
  PstreeNode, Tree, children_size, find_from, find_node_with_pid, link, make_from, make_tree,
  no_links,
}

abbrev pub behind : Option ℕ → Option ℕ
behind none = none
behind (some p) = some (suc p)

abbrev moved : ℕ → Option ℕ → Option ℕ
moved i none = none
moved i (some p) = some (i + p)

step_behind : (i : ℕ) (o : Option ℕ) → moved (suc i) o ≡ moved i (behind o)
step_behind i none = refl
step_behind i (some p) = ap some (omega arith)

moved_none : (o : Option ℕ) → moved 0 o ≡ o
moved_none none = refl
moved_none (some p) = ap some (omega arith)

abbrev pub is_some : Option ℕ → ℕ → Bool
is_some none p = false
is_some (some q) p = p == q

-- Of the nodes `rest`, whose first position is `i`, those whose parent's pid is first found at the
-- position `p`, in the order of the list.
abbrev pub children_of : List PstreeNode → ℕ → List PstreeNode → ℕ → List ℕ
children_of nodes i [] p = []
children_of nodes i (node ∷ rest) p =
    let later = children_of nodes (suc i) rest p in
    if is_some (find_node_with_pid node.ppid nodes) p then i ∷ later else later

pub children_of-le :
    (nodes : List PstreeNode) (i : ℕ) (rest : List PstreeNode) (p : ℕ)
    → length (children_of nodes i rest p) ≤ length rest
children_of-le nodes i [] p = omega arith
children_of-le nodes i (node ∷ rest) p =
    let le = children_of-le nodes (suc i) rest p in
    elim (Bool-cases (is_some (find_node_with_pid node.ppid nodes) p)) [
      | inl e ↦ rw e (omega (arith, le))
      | inr e ↦ rw e (omega (arith, le))
    ]

-- The position of the node with the ppid of the node at a position.
abbrev pub parent_of : List PstreeNode → List PstreeNode → ℕ → Option ℕ
parent_of nodes [] n = none
parent_of nodes (node ∷ rest) zero = find_node_with_pid node.ppid nodes
parent_of nodes (node ∷ rest) (suc n) = parent_of nodes rest n

-- What is still to be added fits in the arrays.
abbrev pub Fits : List PstreeNode → ℕ → List PstreeNode → Tree → Type 0
Fits nodes i rest t =
    (p : ℕ) → length (t.children p) + length (children_of nodes i rest p) < children_size

link-children :
    (nodes : List PstreeNode) (i q p : ℕ) (node : PstreeNode) (rest : List PstreeNode) (t : Tree)
    → find_node_with_pid node.ppid nodes ≡ some q
    → (link i q t).children p ++ children_of nodes (suc i) rest p
      ≡ t.children p ++ children_of nodes i (node ∷ rest) p
unfolding link
link-children nodes i q p node rest t found = rw found (elim (Bool-cases (p == q)) [
  | inl e ↦ rw e (append_assoc (t.children p) (i ∷ []) (children_of nodes (suc i) rest p))
  | inr e ↦ rw e refl
])

eq_self : (n : ℕ) → (n == n) ≡ true
eq_self n = ground arith

eq_other : (n m : ℕ) → n < m → (n == m) ≡ false
eq_other n m lt = ground arith

link-parent : (i q n : ℕ) (t : Tree) → n < i → (link i q t).parent n ≡ t.parent n
unfolding link
link-parent i q n t lt = rw (eq_other n i lt) refl

link-parent_self : (i q : ℕ) (t : Tree) → (link i q t).parent i ≡ some q
unfolding link
link-parent_self i q t = rw (eq_self i) refl

link-parent_later : (i q n : ℕ) (t : Tree) → i < n → (link i q t).parent n ≡ t.parent n
unfolding link
link-parent_later i q n t lt = let other : (n == i) ≡ false = ground arith in rw other refl

children_of-none :
    (nodes : List PstreeNode) (i p : ℕ) (node : PstreeNode) (rest : List PstreeNode)
    → find_node_with_pid node.ppid nodes ≡ none
    → children_of nodes i (node ∷ rest) p ≡ children_of nodes (suc i) rest p
children_of-none nodes i p node rest missing = rw missing refl

children_of-first :
    (nodes : List PstreeNode) (i q : ℕ) (node : PstreeNode) (rest : List PstreeNode)
    → find_node_with_pid node.ppid nodes ≡ some q
    → children_of nodes i (node ∷ rest) q ≡ i ∷ children_of nodes (suc i) rest q
children_of-first nodes i q node rest found = rw (found, eq_self q) refl

positions :
    (nodes : List PstreeNode) (i : ℕ) (node : PstreeNode) (rest : List PstreeNode)
    (f : ℕ → Option ℕ)
    → f i ≡ find_node_with_pid node.ppid nodes
    → ((k : ℕ) → f (suc i + k) ≡ parent_of nodes rest k)
    → (k : ℕ) → f (i + k) ≡ parent_of nodes (node ∷ rest) k
positions nodes i node rest f here later zero = ap f {x = i + 0} {y = i} (omega arith) ∙ here
positions nodes i node rest f here later (suc k) =
    ap f {x = i + suc k} {y = suc i + k} (omega arith) ∙ later k

Fits-link :
    (nodes : List PstreeNode) (i q : ℕ) (node : PstreeNode) (rest : List PstreeNode) (t : Tree)
    → find_node_with_pid node.ppid nodes ≡ some q
    → Fits nodes i (node ∷ rest) t
    → Fits nodes (suc i) rest (link i q t)
Fits-link nodes i q node rest t found fits p = omega (
  arith,
  fits p,
  ap length (link-children nodes i q p node rest t found),
  length-append ((link i q t).children p) (children_of nodes (suc i) rest p),
  length-append (t.children p) (children_of nodes i (node ∷ rest) p),
)

-- The position of the first node that has the pid.
abbrev pub holder : ℕ → List PstreeNode → Option ℕ
holder pid [] = none
holder pid (node ∷ rest) = if node.pid == pid then some 0 else behind (holder pid rest)

-- Of the nodes `rest`, whose first position is `i`, those whose ppid is the pid that the position `p`
-- holds.
abbrev pub offspring : List PstreeNode → ℕ → List PstreeNode → ℕ → List ℕ
offspring nodes i [] p = []
offspring nodes i (node ∷ rest) p =
    let later = offspring nodes (suc i) rest p in
    if is_some (holder node.ppid nodes) p then i ∷ later else later

abbrev pub elder : List PstreeNode → List PstreeNode → ℕ → Option ℕ
elder nodes [] n = none
elder nodes (node ∷ rest) zero = holder node.ppid nodes
elder nodes (node ∷ rest) (suc n) = elder nodes rest n

find_from-holder :
    (i pid : ℕ) (nodes : List PstreeNode) → find_from i pid nodes ≡ moved i (holder pid nodes)
unfolding find_from
find_from-holder i pid [] = refl
find_from-holder i pid (node ∷ rest) = elim (Bool-cases (node.pid == pid)) [
  | inl e ↦ rw e (ap some (omega arith))
  | inr e ↦ rw e (find_from-holder (suc i) pid rest ∙ step_behind i (holder pid rest))
]

find_node-holder :
    (pid : ℕ) (nodes : List PstreeNode) → find_node_with_pid pid nodes ≡ holder pid nodes
unfolding find_node_with_pid
find_node-holder pid nodes = find_from-holder 0 pid nodes ∙ moved_none (holder pid nodes)

module _ (nodes : List PstreeNode) where
  abbrev Linked : ℕ → List PstreeNode → Tree → Tree → Type 0
  Linked i rest t t' =
      ((p : ℕ) → t'.children p ≡ t.children p ++ children_of nodes i rest p)
      × ((n : ℕ) → n < i → t'.parent n ≡ t.parent n)
      × ((k : ℕ) → t'.parent (i + k) ≡ parent_of nodes rest k)

  make_from-Linked :
      (i : ℕ) (rest : List PstreeNode) (t : Tree)
      → Fits nodes i rest t
      → ((n : ℕ) → i ≤ n → t.parent n ≡ none)
      → (t' : Tree) × (make_from nodes i rest t ≡ some t') × Linked i rest t t'
  unfolding make_from
  make_from-Linked i [] t fits fresh = (
    t,
    refl,
    (λ p. sym (append-nil (t.children p)), λ n lt. refl, λ k. fresh (i + k) (omega arith)),
  )
  make_from-Linked i (node ∷ rest) t fits fresh =
      elim (Option-cases (find_node_with_pid node.ppid nodes)) [
        | inl missing ↦
            let fits' : Fits nodes (suc i) rest t = λ p.
              omega (arith, fits p, ap length (children_of-none nodes i p node rest missing)) in
            let (t', run, links) =
              make_from-Linked (suc i) rest t fits' (λ n le. fresh n (omega arith)) in
            let (children, kept, later) = links in
            (
              t',
              rw (missing, make_from) run,
              (
                λ p.
                    children p
                    ∙ ap (λ l. t.children p ++ l)
                        (sym (children_of-none nodes i p node rest missing)),
                λ n lt. kept n (omega arith),
                positions nodes i node rest t'.parent
                    (kept i (omega arith) ∙ fresh i (omega arith) ∙ sym missing) later,
              ),
            )
        | inr (q, found) ↦
            let room : ltb (length (t.children q) + 1) children_size ≡ true =
              lt→ltb (length (t.children q) + 1) children_size
                (omega (arith, fits q, ap length (children_of-first nodes i q node rest found))) in
            let (t', run, links) =
              make_from-Linked (suc i) rest (link i q t)
                (Fits-link nodes i q node rest t found fits)
                (λ n le. link-parent_later i q n t (omega arith) ∙ fresh n (omega arith)) in
            let (children, kept, later) = links in
            (
              t',
              rw (found, room, make_from) run,
              (
                λ p. children p ∙ link-children nodes i q p node rest t found,
                λ n lt. kept n (omega arith) ∙ link-parent i q n t lt,
                positions nodes i node rest t'.parent
                    (kept i (omega arith) ∙ link-parent_self i q t ∙ sym found) later,
              ),
            )
      ]

  -- The children of a position, and its parent, by the pids and ppids alone.
  pub offspring-children_of :
      (i : ℕ) (rest : List PstreeNode) (p : ℕ)
      → children_of nodes i rest p ≡ offspring nodes i rest p
  offspring-children_of i [] p = refl
  offspring-children_of i (node ∷ rest) p =
      let same = find_node-holder node.ppid nodes in
      let later = offspring-children_of (suc i) rest p in
      λ j. if is_some (same j) p then i ∷ later j else later j

  elder-parent_of : (rest : List PstreeNode) (n : ℕ) → parent_of nodes rest n ≡ elder nodes rest n
  elder-parent_of [] n = refl
  elder-parent_of (node ∷ rest) zero = find_node-holder node.ppid nodes
  elder-parent_of (node ∷ rest) (suc n) = elder-parent_of rest n

  pub make_tree-children_of :
      ((p : ℕ) → length (children_of nodes 0 nodes p) < children_size)
      → (t : Tree) × (make_tree nodes ≡ some t)
        × ((p : ℕ) → t.children p ≡ children_of nodes 0 nodes p)
        × ((n : ℕ) → t.parent n ≡ parent_of nodes nodes n)
  unfolding make_tree
  make_tree-children_of fits =
      let (t, run, links) =
        make_from-Linked 0 nodes no_links (λ p. omega (arith, fits p)) (λ n le. refl) in
      let (children, kept, parents) = links in
      (t, run, children, λ n. ap t.parent {y = 0 + n} (omega arith) ∙ parents n)

  -- When no pid is the ppid of 128 nodes, `make_tree` stays within the arrays, the children of each
  -- node are the nodes with its pid as ppid in the order of the list, and the parent of each node
  -- is the first node with that pid, or NULL.
  pub make_tree-links :
      ((p : ℕ) → length (offspring nodes 0 nodes p) < children_size)
      → (t : Tree) × (make_tree nodes ≡ some t)
        × ((p : ℕ) → t.children p ≡ offspring nodes 0 nodes p)
        × ((n : ℕ) → t.parent n ≡ elder nodes nodes n)
  make_tree-links fits =
      let (t, run, children, parents) =
        make_tree-children_of
          (λ p. omega (arith, fits p, ap length (offspring-children_of 0 nodes p))) in
      (
        t,
        run,
        λ p. children p ∙ offspring-children_of 0 nodes p,
        λ n. parents n ∙ elder-parent_of nodes n,
      )
