-- ===== src/Pstree/Printed.antt =====
-- The output of 12-system-and-process-information/pstree.c for the tree that it makes.
use linux_programming_interf.Common.{
  CString, ℕ, zero, suc, ◌+◌, ◌<◌, ◌≡◌, refl, sym, ap, ◌∙◌, false, Option, none, some, inl, inr,
  List, [], ◌∷◌, arith, length, All, Bool-cases, hit, count, ltb, ◌==◌, if◌then◌else◌, Bool,
}
use linux_programming_interf.Pstree.{
  PstreeNode, Tree, children_size, find_from, find_node_with_pid, make_tree, print_roots,
  catalog_all, main,
}
use linux_programming_interf.Pstree.Links.{is_some, children_of, parent_of, make_tree-children_of}
use linux_programming_interf.Pstree.Preorder.{Order, root_order, listing, print_roots-root_order}
use linux_programming_interf.Pstree.Once.{times, mark, All-count, total_all}

find_from_inside :
    (i pid p : ℕ) (rest : List PstreeNode) → find_from i pid rest ≡ some p → p < i + length rest
unfolding find_from
find_from_inside i pid p [] e = absurd (cc)
find_from_inside i pid p (node ∷ rest) e = elim (Bool-cases (node.pid == pid)) [
  | inl here ↦
      let found : some i ≡ some p = rw here at e in let same : i ≡ p = ground arith in omega arith
  | inr other ↦
      let found : find_from (suc i) pid rest ≡ some p = rw other at e in
      let lt = find_from_inside (suc i) pid p rest found in omega arith
]

parent_of_inside :
    (nodes rest : List PstreeNode) (x p : ℕ)
    → parent_of nodes rest x ≡ some p
    → (x < length rest) × (p < length nodes)
unfolding find_node_with_pid
parent_of_inside nodes [] x p e = absurd (cc)
parent_of_inside nodes (node ∷ rest) zero p e =
    let lt = find_from_inside 0 node.ppid p nodes e in (omega arith, omega arith)
parent_of_inside nodes (node ∷ rest) (suc x) p e =
    let (lt, in_p) = parent_of_inside nodes rest x p e in (omega arith, in_p)

count-children_early :
    (nodes : List PstreeNode) (i : ℕ) (rest : List PstreeNode) (p x : ℕ)
    → x < i
    → count x (children_of nodes i rest p) ≡ 0
count-children_early nodes i [] p x lt = refl
count-children_early nodes i (node ∷ rest) p x lt =
    let later = count-children_early nodes (suc i) rest p x (omega arith) in
    let apart : (x == i) ≡ false = ground arith in
    elim (Bool-cases (is_some (find_node_with_pid node.ppid nodes) p)) [
      | inl e ↦ rw (e, apart) (omega (arith, later))
      | inr e ↦ rw e later
    ]

is_some-mark : (o : Option ℕ) (p : ℕ) → (if is_some o p then 1 else 0) ≡ mark o p
is_some-mark none p = refl
is_some-mark (some q) p = ground arith

count-children_of :
    (nodes : List PstreeNode) (i : ℕ) (rest : List PstreeNode) (p k : ℕ)
    → count (i + k) (children_of nodes i rest p) ≡ mark (parent_of nodes rest k) p
count-children_of nodes i [] p k = refl
count-children_of nodes i (node ∷ rest) p zero =
    let early : count (i + 0) (children_of nodes (suc i) rest p) ≡ 0 =
      count-children_early nodes (suc i) rest p (i + 0) (omega arith) in
    let same : hit (i + 0) i ≡ 1 = ground arith in
    let one = is_some-mark (find_node_with_pid node.ppid nodes) p in
    elim (Bool-cases (is_some (find_node_with_pid node.ppid nodes) p)) [
      | inl e ↦
          let one' : 1 ≡ mark (find_node_with_pid node.ppid nodes) p = rw e at one in
          rw e (omega (arith, early, same, one'))
      | inr e ↦
          let one' : 0 ≡ mark (find_node_with_pid node.ppid nodes) p = rw e at one in
          rw e (omega (arith, early, one'))
    ]
count-children_of nodes i (node ∷ rest) p (suc k) =
    let later = count-children_of nodes (suc i) rest p k in
    let moved : count (i + suc k) (children_of nodes (suc i) rest p)
        ≡ count (suc i + k) (children_of nodes (suc i) rest p) =
      ap (λ x. count x (children_of nodes (suc i) rest p)) (omega arith) in
    let apart : hit (i + suc k) i ≡ 0 = ground arith in
    elim (Bool-cases (is_some (find_node_with_pid node.ppid nodes) p)) [
      | inl e ↦ rw e (omega (arith, later, moved, apart))
      | inr e ↦ rw e (moved ∙ later)
    ]

mark-some : (o : Option ℕ) (p : ℕ) → 0 < mark o p → o ≡ some p
mark-some none p lt = absurd (omega arith)
mark-some (some q) p lt = ground arith

-- When no pid is the ppid of 128 nodes, and every node is deeper than its parent, the tree is made,
-- and with as much fuel as there are depths its output ends and is that of the lines of the nodes,
-- each at a level, in an order in which every node stands once.
print_roots_once :
    (nodes : List PstreeNode) (depth : ℕ → ℕ) (fuel : ℕ)
    → ((p : ℕ) → length (children_of nodes 0 nodes p) < children_size)
    → ((n p : ℕ) → parent_of nodes nodes n ≡ some p → depth p < depth n)
    → ((n : ℕ) → depth n < fuel)
    → (t : Tree) × (make_tree nodes ≡ some t)
      × ((order : Order) × (print_roots nodes t fuel 0 nodes ≡ some (listing nodes t order))
          × ((n : ℕ) → times n order ≡ (if ltb n (length nodes) then 1 else 0)))
print_roots_once nodes depth fuel fits deeper small =
    let (t, made, children, parent) = make_tree-children_of nodes fits in
    let once : (x p : ℕ) → count x (t.children p) ≡ mark (t.parent x) p = λ x p.
      ap (count x) (children p)
      ∙ ap (λ y. count y (children_of nodes 0 nodes p)) (omega arith)
      ∙ count-children_of nodes 0 nodes p x
      ∙ ap (λ o. mark o p) (sym (parent x)) in
    let up : (x p : ℕ) → t.parent x ≡ some p → depth p < depth x =
      λ x p e. deeper x p (sym (parent x) ∙ e) in
    let down : (p : ℕ) → All (λ c. depth p < depth c) (t.children p) = λ p.
      All-count (t.children p)
        (λ c lt. up c p (mark-some (t.parent c) p (let same = once c p in omega arith))) in
    (
      t,
      made,
      (
        root_order t fuel 0 nodes,
        print_roots-root_order nodes t depth fuel down small fuel 0 nodes (omega arith),
        λ n.
            total_all t depth fuel down small once nodes up
              (λ x p e. parent_of_inside nodes nodes x p (sym (parent x) ∙ e)) fuel n (small n),
      ),
    )

-- When the processes can be read, no pid is the ppid of 128 of them, and every process is deeper than
-- its parent, then with as much fuel as there are depths the program ends with the status 0, and its
-- output is that of the lines of the processes, each at a level, in an order in which every process
-- stands once.
pub main_once :
    (status : CString → Option (List CString)) (atoi : CString → ℕ)
    (entries : List (CString × Bool)) (nodes : List PstreeNode) (depth : ℕ → ℕ) (fuel : ℕ)
    → catalog_all status atoi entries [] ≡ some nodes
    → ((p : ℕ) → length (children_of nodes 0 nodes p) < children_size)
    → ((n p : ℕ) → parent_of nodes nodes n ≡ some p → depth p < depth n)
    → ((n : ℕ) → depth n < fuel)
    → (t : Tree) × (make_tree nodes ≡ some t)
      × ((order : Order) × (main status atoi fuel (some entries) ≡ some (0, listing nodes t order))
          × ((n : ℕ) → times n order ≡ (if ltb n (length nodes) then 1 else 0)))
unfolding main
main_once status atoi entries nodes depth fuel read fits deeper small =
    let (t, made, once) = print_roots_once nodes depth fuel fits deeper small in
    let (order, printed, each_once) = once in
    (t, made, (order, rw (read, main, made, printed) refl, each_once))
