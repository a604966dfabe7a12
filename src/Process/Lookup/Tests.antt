-- ===== src/Process/Lookup/Tests.antt =====
-- A lookup in a tree of two processes.
use os.Prelude.{◌≡◌, refl, ◌==◌, none, some, if◌then◌else◌, arith}
use os.Prelude.Int.{ℤ, pos}
use os.Util.Linked.{Ptr, node, list}
use os.Util.Tree.{tree_node, Forest, TreeHead}
use os.Util.Tree.Shape.{Tree, tree, childless, child, size, Holds}
use os.Process.Lookup.{eqb_ℤ, process_compare, process_from_pid, process_from_pid-root}

-- the process at 1, with number 0, and its child at 2, with number 7
abbrev family : Forest
family = record {
  cells = λ p. if p == 11 then some (node 0 0 101) else none;
  trees = λ p.
      if p == 100
      then some (tree_node 1 (some (list 11 11 1)) 0)
      else if p == 101
      then some (tree_node 2 (some (list 0 0 0)) 100)
      else none;
}

abbrev family_tree : Tree
family_tree = tree 100 1 (child 11 (tree 101 2 childless) childless)

abbrev head : TreeHead
head = record { nodes = 2; root = 100 }

abbrev numbers : Ptr → ℤ
numbers p = if p == 2 then pos 7 else pos 0

family-Holds : Holds family family_tree
unfolding Holds
family-Holds = (
  ground arith,
  (list 11 11 1, 0, refl, refl, refl),
  (ground arith, (0, refl), (ground arith, (list 0 0 0, 100, refl, refl, refl), tt), tt),
)

-- The process with number 7 is not found.
process_from_pid-root_example : process_from_pid 4 family head numbers (pos 7) ≡ some 0
unfolding size process_compare eqb_ℤ
process_from_pid-root_example =
    process_from_pid-root family head numbers (pos 7) family_tree 4 family-Holds refl (omega arith)
