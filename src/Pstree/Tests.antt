-- ===== src/Pstree/Tests.antt =====
-- Runs of 12-system-and-process-information/pstree.c.
use mathlib.Core.Option.{some-injective}
use mathlib.Core.Path.{subst}
use linux_programming_interf.Common.{
  ℕ, zero, suc, ap, ◌<◌, ◌≡◌, ltb, if◌then◌else◌, some, List, [], ◌∷◌, length, codes, arith,
  CString, Option, none, Bool, true, false, ◌++◌, ◌-◌, get_or, str_eq, ◌==◌, refl,
}
use linux_programming_interf.Pstree.{
  PstreeNode, Tree, make_tree, find_node_with_pid, find_from, catalog_all, catalog_process, main,
}
use linux_programming_interf.ProcLib.Status.{key_value}
use linux_programming_interf.Pstree.Links.{
  children_of, children_of-le, parent_of, offspring, elder, offspring-children_of, make_tree-links,
}
use linux_programming_interf.Pstree.Preorder.{Order, listing}
use linux_programming_interf.Pstree.Once.{times}
use linux_programming_interf.Pstree.Printed.{main_once}

abbrev node : ℕ → ℕ → PstreeNode
node pid ppid = record { name = codes "p"; pid = pid; ppid = ppid }

-- Process 1 has the children 3 and 2, and process 3 the child 4.
abbrev nodes : List PstreeNode
nodes = node 4 3 ∷ node 3 1 ∷ node 2 1 ∷ node 1 0 ∷ []

few : (p : ℕ) → length (children_of nodes 0 nodes p) < 128
few p = omega (arith, children_of-le nodes 0 nodes p)

make_tree-links_example :
    (t : Tree) × (make_tree nodes ≡ some t)
    × ((p : ℕ) → t.children p ≡ offspring nodes 0 nodes p)
    × ((n : ℕ) → t.parent n ≡ elder nodes nodes n)
make_tree-links_example =
    make_tree-links nodes
      (λ p. omega (arith, few p, ap length (offspring-children_of nodes 0 nodes p)))

abbrev depth : ℕ → ℕ
depth zero = 2
depth (suc zero) = 1
depth (suc (suc zero)) = 1
depth (suc (suc (suc n))) = 0

deeper : (n p : ℕ) → parent_of nodes nodes n ≡ some p → depth p < depth n
unfolding find_node_with_pid find_from
deeper zero p e =
    let same : 1 ≡ p = some-injective _ _ e in subst (λ q. depth q < 2) same (omega arith)
deeper (suc zero) p e =
    let same : 3 ≡ p = some-injective _ _ e in subst (λ q. depth q < 1) same (omega arith)
deeper (suc (suc zero)) p e =
    let same : 3 ≡ p = some-injective _ _ e in subst (λ q. depth q < 1) same (omega arith)
deeper (suc (suc (suc zero))) p e = absurd (cc)
deeper (suc (suc (suc (suc n)))) p e = absurd (cc)

shallow : (n : ℕ) → depth n < 3
shallow zero = omega arith
shallow (suc zero) = omega arith
shallow (suc (suc zero)) = omega arith
shallow (suc (suc (suc n))) = omega arith

-- The status files of the four processes, and their entries in /proc.
abbrev status_of : ℕ → ℕ → List CString
status_of pid ppid =
    codes "Name:\tp\n"
    ∷ (codes "Pid:\t" ++ (pid ∷ b'\n' ∷ []))
    ∷ (codes "PPid:\t" ++ (ppid ∷ b'\n' ∷ []))
    ∷ []

abbrev status : CString → Option (List CString)
status path =
    let digit = get_or path 6 0 in
    if digit == b'1'
    then some (status_of b'1' b'0')
    else if digit == b'2'
    then some (status_of b'2' b'1')
    else if digit == b'3'
    then some (status_of b'3' b'1')
    else if digit == b'4'
    then some (status_of b'4' b'3')
    else none

abbrev atoi : CString → ℕ
atoi [] = 0
atoi (c ∷ s) = c - b'0'

abbrev entries : List (CString × Bool)
entries =
    (codes "1", true)
    ∷ (codes "2", true)
    ∷ (codes "acpi", true)
    ∷ (codes "3", true)
    ∷ (codes "stat", false)
    ∷ (codes "4", true)
    ∷ []

cataloged : catalog_all status atoi entries [] ≡ some nodes
unfolding catalog_all catalog_process key_value str_eq
cataloged = refl

main_once_example :
    (t : Tree) × (make_tree nodes ≡ some t)
    × ((order : Order) × (main status atoi 3 (some entries) ≡ some (0, listing nodes t order))
        × ((n : ℕ) → times n order ≡ (if ltb n (length nodes) then 1 else 0)))
main_once_example = main_once status atoi entries nodes depth 3 cataloged few deeper shallow
