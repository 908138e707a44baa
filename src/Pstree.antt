-- ===== src/Pstree.antt =====
-- 12-system-and-process-information/pstree.c. The linked list of the nodes is a list, its head
-- first, and a node is named by its position in it. The proc file system is a parameter.
pub mod Links
pub mod Preorder
pub mod Once
pub mod Printed
mod Tests
use linux_programming_interf.Common.{
  ℕ, zero, suc, ◌+◌, Bool, true, false, Option, none, some, List, [], ◌∷◌, ◌++◌, CString, codes,
  str_eq, ◌==◌, ltb, length, get_elem?, if◌then◌else◌,
}
use linux_programming_interf.Common.Options.{◌>>=◌}
use linux_programming_interf.Common.Output.{Output, text, str, num}
use linux_programming_interf.ProcLib.Status.{key_value}

-- The fields of a node that are set once.
pub record PstreeNode : Type 0 where
  pub name : CString
  pub pid : ℕ
  pub ppid : ℕ

-- The fields `parent` and `children` of the nodes, the latter up to the NULL behind them.
pub record Tree : Type 0 where
  pub parent : ℕ → Option ℕ
  pub children : ℕ → List ℕ

-- The size of the array `children`.
abbrev pub children_size : ℕ
children_size = 128

unfoldable pub ll_create_and_insert : CString → ℕ → ℕ → List PstreeNode → List PstreeNode
ll_create_and_insert procname pid ppid nodes =
    record { name = procname; pid = pid; ppid = ppid } ∷ nodes

-- The local buffers of `catalog_process`; `none` is a buffer that is not set.
pub record Fields : Type 0 where
  pub pid : Option CString
  pub ppid : Option CString
  pub procname : Option CString

-- The `if` of the loop, for a trimmed key and value.
unfoldable pub set_field : CString → CString → Fields → Fields
set_field key value f =
    if str_eq key (codes "Pid")
    then record f { pid = some value }
    else if str_eq key (codes "PPid")
    then record f { ppid = some value }
    else if str_eq key (codes "Name")
    then record f { procname = some value }
    else f

-- The body of the loop; `none` is a read in front of the line by trim().
unfoldable pub scan_line : CString → Fields → Option Fields
unfolding key_value set_field
scan_line line f = do
  parsed ← key_value line
  elim parsed [ none ↦ some f | some (key, value) ↦ some (set_field key value f) ]

unfoldable pub scan_lines : List CString → Fields → Option Fields
unfolding scan_line
scan_lines [] f = some f
scan_lines (line ∷ lines) f = do f' ← scan_line line f; scan_lines lines f'

-- `status` gives the lines of a status file, if it can be opened; `atoi` is the library's. The
-- result `none` is a read of memory that is not set, or before the start of a string.
module _ (status : CString → Option (List CString)) (atoi : CString → ℕ) where
  unfoldable pub catalog_process : CString → List PstreeNode → Option (List PstreeNode)
  unfolding scan_lines ll_create_and_insert
  catalog_process dirname nodes = elim (status (dirname ++ codes "/status")) [
    | none ↦ some nodes
    | some lines ↦ (do
      f ← scan_lines lines (record { pid = none; ppid = none; procname = none })
      procname ← f.procname
      pid ← f.pid
      ppid ← f.ppid
      some (ll_create_and_insert procname (atoi pid) (atoi ppid) nodes))
  ]

  -- The walk over /proc: the names of the entries, and whether each is a directory.
  unfoldable pub catalog_all : List (CString × Bool) → List PstreeNode → Option (List PstreeNode)
  unfolding catalog_process
  catalog_all [] nodes = some nodes
  catalog_all ((d_name, is_dir) ∷ rest) nodes = do
    nodes' ← (if is_dir then catalog_process (codes "/proc/" ++ d_name) nodes else some nodes)
    catalog_all rest nodes'

-- The first node with the pid, from the position `i` on.
unfoldable pub find_from : ℕ → ℕ → List PstreeNode → Option ℕ
find_from i pid [] = none
find_from i pid (node ∷ rest) =
    let later = find_from (suc i) pid rest in if node.pid == pid then some i else later

unfoldable pub find_node_with_pid : ℕ → List PstreeNode → Option ℕ
unfolding find_from
find_node_with_pid pid nodes = find_from 0 pid nodes

-- The node `i` becomes the last child of the node `p`.
unfoldable pub link : ℕ → ℕ → Tree → Tree
link i p t = record {
  parent = λ n. if n == i then some p else t.parent n;
  children = λ n. if n == p then t.children n ++ i ∷ [] else t.children n;
}

-- The loop of `make_tree` from the position `i` on; `none` is a write of a child or of the NULL
-- behind it past the end of the array.
unfoldable pub make_from : List PstreeNode → ℕ → List PstreeNode → Tree → Option Tree
unfolding find_node_with_pid link
make_from nodes i [] t = some t
make_from nodes i (node ∷ rest) t = elim (find_node_with_pid node.ppid nodes) [
  | none ↦ make_from nodes (suc i) rest t
  | some p ↦
      if ltb (length (t.children p) + 1) children_size
      then make_from nodes (suc i) rest (link i p t)
      else none
]

abbrev pub no_links : Tree
no_links = record { parent = λ n. none; children = λ n. [] }

unfoldable pub make_tree : List PstreeNode → Option Tree
unfolding make_from
make_tree nodes = make_from nodes 0 nodes no_links

unfoldable pub indent : ℕ → Output
indent zero = []
indent (suc level) = text "  " ∷ indent level

module _ (nodes : List PstreeNode) (t : Tree) where
  abbrev pub line : ℕ → Output
  line i = elim (get_elem? nodes i) [
    | none ↦ []
    | some node ↦
        str node.name
        ∷ text " (pid: "
        ∷ num node.pid
        ∷ text ", ppid: "
        ∷ num node.ppid
        ∷ text ")\n"
        ∷ []
  ]

  -- The loop over the children, with what is done for each.
  unfoldable pub print_each : (ℕ → Option Output) → List ℕ → Option Output
  print_each print [] = some []
  print_each print (child ∷ rest) = do
    first ← print child
    others ← print_each print rest
    some (first ++ others)

  -- With fuel for the depth of the recursion; `none` means that the fuel ran out.
  unfoldable pub print_tree : ℕ → ℕ → ℕ → Option Output
  unfolding indent print_each
  print_tree zero root level = none
  print_tree (suc fuel) root level = do
    below ← print_each (λ child. print_tree fuel child (suc level)) (t.children root)
    some (indent level ++ line root ++ below)

  -- The last loop of `main`, over the positions that are left.
  unfoldable pub print_roots : ℕ → ℕ → List PstreeNode → Option Output
  unfolding print_tree
  print_roots fuel i [] = some []
  print_roots fuel i (node ∷ rest) = do
    first ← elim (t.parent i) [ none ↦ print_tree fuel i 0 | some p ↦ some [] ]
    others ← print_roots fuel (suc i) rest
    some (first ++ others)

-- From the walk over /proc to the output; `entries` is none where opendir() fails, and `none` is a
-- result of the parts above.
unfoldable pub main :
    (CString → Option (List CString))
    → (CString → ℕ)
    → ℕ
    → Option (List (CString × Bool))
    → Option (ℕ × Output)
unfolding catalog_all make_tree print_roots
main status atoi fuel none = some (1, text "Unabled to open /proc" ∷ [])
main status atoi fuel (some entries) = do
  nodes ← catalog_all status atoi entries []
  t ← make_tree nodes
  out ← print_roots nodes t fuel 0 nodes
  some (0, out)
